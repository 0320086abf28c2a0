-- ===== src/Url/Examples.antt =====
-- Tests of Url.
use libudjat.Base.{
  ◌≡◌, refl, true, false, Option, none, some, [], ◌∷◌, ◌++◌, if◌then◌else◌, Bytes, codes, bytes_eq,
  err, ok,
}
use libudjat.Text.Split.{find_sub}
use libudjat.Url.{port_of, squeeze_loop, sanitize, dots, appended, append, Uri, bad_format}
use libudjat.Url.Clean.{squeeze, sanitize-eq-squeeze}
use libudjat.Url.Resolve.{steps_text, append-steps_text}

-- What uriparser finds in `http://host:80/a/b?q=1`.
abbrev uri : Uri
uri = record {
  scheme = some (codes "http");
  host = some (codes "host");
  port = some (codes "80");
  segments = codes "a" ∷ codes "b" ∷ [];
  query = some (codes "q=1");
}

abbrev url : Bytes
url = codes "http://host:80/a/b?q=1"

abbrev parse_file : Bytes → Option Uri
parse_file text = if bytes_eq text url then some uri else none

url-parse_file : parse_file url ≡ some uri
unfolding bytes_eq
url-parse_file = refl

append-up : append parse_file (codes "../c") url ≡ ok (codes "http://host:80/a/c?q=1")
unfolding append appended sanitize squeeze_loop find_sub bytes_eq dots
append-up = refl

append-hidden : append parse_file (codes ".c") url ≡ err bad_format
unfolding append appended bytes_eq dots
append-hidden = refl

port-number : port_of parse_file (λ name. none) url ≡ ok 80
unfolding port_of bytes_eq
port-number = refl

sanitize-eq-squeeze_example :
    sanitize (codes "a///b\\\\c")
    ≡ some (squeeze b'\\' false (squeeze b'/' false (codes "a///b\\\\c")))
sanitize-eq-squeeze_example = sanitize-eq-squeeze (codes "a///b\\\\c")

append-steps_text_example :
    append parse_file (steps_text (true ∷ false ∷ []) ++ codes "c") url
    ≡ ok (codes "http://host:80/a/c?q=1")
unfolding squeeze
append-steps_text_example =
    append-steps_text parse_file url uri (true ∷ false ∷ []) (codes "c") url-parse_file refl
