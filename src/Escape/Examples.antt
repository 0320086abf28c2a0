-- ===== src/Escape/Examples.antt =====
-- Tests of Escape.
use libudjat.Base.{◌≡◌, refl, arith, codes, ◌>>=◌, ok}
use libudjat.Escape.RoundTrip.{unescape-escape}
use libudjat.Escape.{escape, unescape}

escape-text : escape b'%' (codes "a b/C") ≡ ok (codes "a%20b%2FC")
unfolding escape
escape-text = refl

unescape-text : unescape b'%' (codes "a%20b%2fC") ≡ ok (codes "a b/C")
unfolding unescape
unescape-text = refl

unescape-escape_example : (escape b'%' (codes "a%b") >>= unescape b'%') ≡ ok (codes "a%b")
unescape-escape_example = unescape-escape b'%' (codes "a%b") (omega arith) (omega arith)
