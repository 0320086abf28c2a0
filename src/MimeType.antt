-- ===== src/MimeType.antt =====
-- src/library/tools/http/mimetype.cc: the table of types, and the look-ups by name, by extension and
-- by the beginning of a name. A `MimeType` is its place in the table; what is logged is left out.
pub mod Laws
mod Examples
use mathlib.Core.Option
use libudjat.Base.{
  ℕ, zero, suc, ◌+◌, Bool, Option, none, some, List, [], ◌∷◌, map, ltb, if◌then◌else◌, Bytes, codes,
  length, get_or, case_eq, ncase_eq,
}

pub record Entry : Type 0 where
  pub ext : Bytes
  pub str : Bytes

abbrev entry : Bytes → Bytes → Entry
entry e s = record { ext = e; str = s }

-- `types`
unfoldable pub types : List Entry
types =
    entry (codes "bin") (codes "application/octet-stream")
    ∷ entry (codes "json") (codes "application/json; charset=utf-8")
    ∷ entry (codes "csv") (codes "text/csv; charset=utf-8")
    ∷ entry (codes "tsv") (codes "text/tab-separated-values; charset=utf-8")
    ∷ entry (codes "txt") (codes "text/plain; charset=utf-8")
    ∷ entry (codes "xml") (codes "text/xml; charset=utf-8")
    ∷ entry (codes "html") (codes "text/html; charset=utf-8")
    ∷ entry (codes "css") (codes "text/css; charset=utf-8")
    ∷ entry (codes "js") (codes "application/javascript")
    ∷ entry (codes "svg") (codes "image/svg+xml")
    ∷ entry (codes "gif") (codes "image/gif")
    ∷ entry (codes "jpg") (codes "image/jpeg")
    ∷ entry (codes "png") (codes "image/png")
    ∷ entry (codes "pem") (codes "application/x-pem-file")
    ∷ entry (codes "ico") (codes "image/x-icon")
    ∷ entry (codes "yaml") (codes "text/yaml")
    ∷ entry (codes "gz") (codes "application/gzip")
    ∷ entry (codes "rpm") (codes "application/x-rpm")
    ∷ entry (codes "odt") (codes "application/vnd.oasis.opendocument.text")
    ∷ entry (codes "ods") (codes "application/vnd.oasis.opendocument.spreadsheet")
    ∷ entry (codes "sh") (codes "application/x-sh")
    ∷ entry (codes "pdf") (codes "application/pdf")
    ∷ entry (codes "rtf") (codes "text/richtext")
    ∷ entry (codes "xhtml") (codes "application/xhtml+xml")
    ∷ entry (codes "zip") (codes "application/zip")
    ∷ entry (codes "cacert") (codes "application/x-x509-ca-cert")
    ∷ entry (codes "form-urlencoded") (codes "x-www-form-urlencoded")
    ∷ []

-- A `for` over the table: the first place from `ix` on whose entry passes the test.
unfoldable pub find_type : (Entry → Bool) → ℕ → List Entry → Option ℕ
find_type test ix [] = none
find_type test ix (e ∷ es) =
    let later = find_type test (ix + 1) es in if test e then some ix else later

abbrev pub or_else : Option ℕ → Option ℕ → Option ℕ
or_else none o = o
or_else (some n) o = some n

-- The three loops of `MimeTypeFactory`, over a table.
unfoldable pub search_in : List Entry → Bytes → Option ℕ
unfolding find_type case_eq ncase_eq
search_in es str = or_else (find_type (λ e. case_eq str e.str) 0 es) (
    or_else (find_type (λ e. case_eq str e.ext) 0 es)
      (find_type (λ e. ncase_eq (length str) str e.str) 0 es))

-- `MimeTypeFactory(str,def)`; a null `str` is the empty text.
unfoldable pub mime_type_or : Bytes → ℕ → ℕ
unfolding search_in types
mime_type_or [] def = def
mime_type_or (c ∷ cs) def = Option.get_or (search_in types (c ∷ cs)) def

-- `MimeTypeFactory(str,log_def)`
unfoldable pub mime_type : Bytes → ℕ
unfolding search_in types
mime_type [] = 0
mime_type (c ∷ cs) = Option.get_or (search_in types (c ∷ cs)) 0

-- `types[ix]`; behind the end of the array there is no entry.
unfoldable pub entry_at : ℕ → List Entry → Option Entry
entry_at ix [] = none
entry_at zero (e ∷ es) = some e
entry_at (suc ix) (e ∷ es) = entry_at ix es

-- `to_string`, over a table: `none` is a read behind the array.
unfoldable pub text_in : List Entry → ℕ → Bool → Option Bytes
unfolding entry_at
text_in es ix suffix =
    Option.map (λ e. if suffix then e.ext else e.str)
      (entry_at (if ltb (length es) ix then 0 else ix) es)

unfoldable pub type_to_string : ℕ → Bool → Option Bytes
unfolding text_in types
type_to_string ix suffix = text_in types ix suffix
