-- ===== src/Text/Examples.antt =====
-- Tests of Text.
use libudjat.Base.{◌≡◌, refl, false, some, [], ◌∷◌, arith, codes, c_str, is_digit, is_space, ok}
use libudjat.Text.Split.RoundTrip.{split-join}
use libudjat.Text.Units.{string_to_byte, scan_digits, checked, signed, stoll, as_ull}
use libudjat.Text.Split.{split, for_each}

split-comma :
    split (codes ",") 0 (codes " ab, c ,,d ") ≡ some (codes "ab" ∷ codes "c" ∷ [] ∷ codes "d" ∷ [])
unfolding split c_str
split-comma = refl

split-three :
    split (codes ",") 3 (codes "a,b,c,d") ≡ some (codes "a" ∷ codes "b" ∷ codes "c,d" ∷ [])
unfolding split c_str
split-three = refl

for_each-blank :
    for_each (codes ",") (λ _. false) (codes "a, b,c")
    ≡ some (false, codes "a," ∷ codes "b" ∷ codes "c" ∷ [])
unfolding for_each c_str
for_each-blank = refl

-- The unit of ten kilobytes is missed.
as_ull-kilobytes : as_ull (codes "10KB") ≡ ok 10
unfolding as_ull stoll signed scan_digits checked string_to_byte is_digit
as_ull-kilobytes = refl

split-join_example : split (codes ",") 0 (codes "ab,,c") ≡ some (codes "ab" ∷ [] ∷ codes "c" ∷ [])
unfolding is_space
split-join_example =
    split-join b',' (codes "ab" ∷ [] ∷ codes "c" ∷ []) refl (omega arith)
      ((refl, refl), (refl, (refl, tt)), ((tt, tt), tt, ((refl, refl), (refl, tt), λ e. cc)))
      ((omega arith, (omega arith, tt)), (tt, ((omega arith, tt), tt)))
