-- ===== src/Url.antt =====
-- src/library/tools/url/url.cc: a URL as its text, and the operations that take it apart and put it
-- together. The parser is uriparser's (`ParsedUri`), and so a parameter: what it finds in a text, or
-- nothing where it refuses the text. `basename` and `dirname` of libgen and `getservbyname` are
-- parameters too. What a handler does with a connection is not modelled.
pub mod Clean
pub mod Resolve
pub mod Locality
mod Examples
use libudjat.Base.{
  ℕ, zero, suc, ◌+◌, Bool, true, false, not, Option, none, some, List, [], ◌∷◌, ◌++◌, ◌==◌,
  if◌then◌else◌, Bytes, codes, length, take, drop, case_eq, n_eq, ◌>>=◌, Result, err, ok,
}
use libudjat.Text.Strip.{strip, is_number}
use libudjat.Text.Split.{find_sub}
use libudjat.Text.Units.{scan_digits}
use libudjat.MimeType.{mime_type}

-- The parts of a `UriUriA` that are read; `none` is a null pointer.
pub record Uri : Type 0 where
  pub scheme : Option Bytes
  pub host : Option Bytes
  pub port : Option Bytes
  pub segments : List Bytes
  pub query : Option Bytes

pub data Error : Type 0 where
  invalid_url empty_hostname no_service bad_format : Error

-- `String{text.first, text.afterLast - text.first}`
abbrev pub text_of : Option Bytes → Bytes
text_of none = []
text_of (some s) = s

-- What is appended if the pointer is not null.
abbrev pub part : (Bytes → Bytes) → Option Bytes → Bytes
part f none = []
part f (some s) = f s

-- `ParsedUri uri{*this}`
abbrev pub parsed : (Bytes → Option Uri) → Bytes → Result Error Uri
parsed parse url = elim (parse url) [ none ↦ err invalid_url | some uri ↦ ok uri ]

unfoldable pub scheme : (Bytes → Option Uri) → Bytes → Result Error Bytes
scheme parse [] = ok []
scheme parse (c ∷ cs) = do uri ← parsed parse (c ∷ cs); ok (text_of uri.scheme)

unfoldable pub servicename : (Bytes → Option Uri) → Bytes → Result Error Bytes
unfolding scheme
servicename parse url = do
  uri ← parsed parse url
  elim (text_of uri.port) [ [] ↦ scheme parse url | c ∷ cs ↦ ok (c ∷ cs) ]

-- `atoi` of digits: right below 2 ^ 31.
abbrev pub atoi : Bytes → ℕ
atoi s = (scan_digits 0 0 s).0

abbrev pub service_port : (Bytes → Option ℕ) → Bytes → Result Error ℕ
service_port service name = elim (service name) [ none ↦ err no_service | some port ↦ ok port ]

-- `port`: the number of the text, or of the service that the text or the scheme names.
unfoldable pub port_of : (Bytes → Option Uri) → (Bytes → Option ℕ) → Bytes → Result Error ℕ
unfolding scheme is_number scan_digits
port_of parse service url = do
  uri ← parsed parse url
  elim (text_of uri.port) [
    | [] ↦ do name ← scheme parse url; service_port service name
    | c ∷ cs ↦ if is_number (c ∷ cs) then ok (atoi (c ∷ cs)) else service_port service (c ∷ cs)
  ]

unfoldable pub hostname : (Bytes → Option Uri) → Bytes → Result Error Bytes
hostname parse url = do uri ← parsed parse url; ok (text_of uri.host)

abbrev pub join_segments : List Bytes → Bytes
join_segments [] = []
join_segments (s ∷ ss) = b'/' ∷ (s ++ join_segments ss)

-- `hostname(name)`: the URL with another host.
unfoldable pub set_hostname : (Bytes → Option Uri) → Bytes → Bytes → Result Error Bytes
set_hostname parse [] url = err empty_hostname
set_hostname parse (c ∷ cs) url = do
  uri ← parsed parse url
  ok (
      part (λ s. s ++ codes "://") uri.scheme
      ++ ((c ∷ cs)
          ++ (part (λ s. b':' ∷ s) uri.port
              ++ (join_segments uri.segments ++ part (λ s. b'?' ∷ s) uri.query))))

-- The loop of `sanitize` for one character: while it stands twice in a row, the first two become
-- one. `none` is a run out of fuel.
unfoldable pub squeeze_loop : ℕ → ℕ → Bytes → Option Bytes
unfolding find_sub
squeeze_loop zero c path = none
squeeze_loop (suc fuel) c path = elim (find_sub (c ∷ c ∷ []) path) [
  | none ↦ some path
  | some pos ↦ squeeze_loop fuel c (take pos path ++ (c ∷ drop (pos + 2) path))
]

-- `sanitize`; there is always fuel enough.
unfoldable pub sanitize : Bytes → Option Bytes
unfolding squeeze_loop
sanitize path = elim (squeeze_loop (suc (length path)) b'/' path) [
  | none ↦ none
  | some p ↦ squeeze_loop (suc (length p)) b'\\' p
]

abbrev pub sanitized : Bytes → Bytes
unfolding sanitize
sanitized path = elim (sanitize path) [ none ↦ [] | some p ↦ p ]

abbrev pub concat : List Bytes → Bytes
concat [] = []
concat (s ∷ ss) = s ++ concat ss

-- `path`
unfoldable pub path_of : (Bytes → Option Uri) → Bool → Bytes → Result Error Bytes
unfolding sanitized
path_of parse strip url = do
  uri ← parsed parse url
  ok (sanitized (if strip then concat uri.segments else join_segments uri.segments))

-- `name` and `dirname`, by the function of libgen.
unfoldable pub piece_of_path : (Bytes → Option Uri) → (Bytes → Bytes) → Bytes → Result Error Bytes
unfolding path_of
piece_of_path parse piece url = do path ← path_of parse false url; ok (piece path)

-- What stands behind the last dot, if there is one.
abbrev pub after_dot : Bytes → Option Bytes
after_dot [] = none
after_dot (c ∷ cs) = elim (after_dot cs) [
  | some ext ↦ some ext
  | none ↦ if c == b'.' then some cs else none
]

-- `mimetype`
unfoldable pub mimetype : (Bytes → Option Uri) → Bytes → Result Error ℕ
unfolding path_of mime_type
mimetype parse url = do
  path ← path_of parse false url
  elim (after_dot path) [
    | none ↦ ok 0
    | some ext ↦ elim ext [ [] ↦ ok 0 | c ∷ cs ↦ ok (mime_type (c ∷ cs)) ]
  ]

-- The segments as `operator +=` changes them: the last one is dropped.
abbrev pub pop_back : List Bytes → List Bytes
pop_back [] = []
pop_back (s ∷ []) = []
pop_back (s ∷ t ∷ ss) = s ∷ pop_back (t ∷ ss)

-- The `while(*ptr == '.')`: the segments that are left and the rest of the path.
unfoldable pub dots : ℕ → List Bytes → Bytes → Result Error (List Bytes × Bytes)
unfolding n_eq
dots zero segments ptr = ok (segments, ptr)
dots (suc fuel) segments [] = ok (segments, [])
dots (suc fuel) segments (c ∷ cs) = elim (c == b'.') [
  | false ↦ ok (segments, c ∷ cs)
  | true ↦ elim (n_eq 2 (c ∷ cs) (codes "./")) [
    | true ↦ dots fuel segments (drop 2 (c ∷ cs))
    | false ↦ elim (n_eq 3 (c ∷ cs) (codes "../")) [
      | true ↦ dots fuel (pop_back segments) (drop 3 (c ∷ cs))
      | false ↦ err bad_format
    ]
  ]
]

-- The path that is put together.
abbrev pub new_path : List Bytes → Bytes → Bytes
new_path segments [] = join_segments segments
new_path segments (c ∷ cs) =
    if c == b'/'
    then elim cs [
      | [] ↦ join_segments segments
      | d ∷ ds ↦ join_segments segments ++ (b'/' ∷ d ∷ ds)
    ]
    else join_segments segments ++ (b'/' ∷ c ∷ cs)

-- `operator +=`, on the parsed URL. The loop over the dots takes the length of the path as fuel.
unfoldable pub appended : Bytes → Uri → Result Error Bytes
unfolding dots sanitized
appended path uri = do
  (segments, ptr) ← dots (length path) uri.segments path
  ok (
      part (λ s. s ++ codes "://") uri.scheme
      ++ (text_of uri.host
          ++ (part (λ s. b':' ∷ s) uri.port
              ++ (sanitized (new_path segments ptr) ++ part (λ s. b'?' ∷ s) uri.query))))

unfoldable pub append : (Bytes → Option Uri) → Bytes → Bytes → Result Error Bytes
unfolding appended
append parse path url = parsed parse url >>= appended path

-- `argument`: the value of the first key that is the name; `query` takes the text apart
-- (`uriDissectQueryMallocA`), and has an empty text for a value that is null.
unfoldable pub first_value : Bytes → List (Bytes × Bytes) → Bytes
unfolding case_eq
first_value name [] = []
first_value name ((key, value) ∷ rest) =
    let later = first_value name rest in if case_eq key name then value else later

unfoldable pub argument :
    (Bytes → Option Uri) → (Bytes → List (Bytes × Bytes)) → Bytes → Bytes → Result Error Bytes
unfolding first_value
argument parse query name url = do
  uri ← parsed parse url
  elim uri.query [ none ↦ ok [] | some q ↦ ok (first_value name (query q)) ]

-- `local` and `remote`
unfoldable pub scheme_is_local : Bytes → Bool
unfolding case_eq
scheme_is_local [] = true
scheme_is_local (c ∷ cs) = case_eq (c ∷ cs) (codes "file")

unfoldable pub scheme_is_remote : Bytes → Bool
unfolding case_eq
scheme_is_remote [] = false
scheme_is_remote (c ∷ cs) = not (case_eq (c ∷ cs) (codes "file"))

unfoldable pub is_local : (Bytes → Option Uri) → Bytes → Result Error Bool
unfolding scheme_is_local
is_local parse [] = ok false
is_local parse (c ∷ cs) = do uri ← parsed parse (c ∷ cs); ok (scheme_is_local (text_of uri.scheme))

unfoldable pub is_remote : (Bytes → Option Uri) → Bytes → Result Error Bool
unfolding scheme_is_remote
is_remote parse [] = ok false
is_remote parse (c ∷ cs) = do
  uri ← parsed parse (c ∷ cs)
  ok (scheme_is_remote (text_of uri.scheme))
