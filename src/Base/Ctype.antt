-- ===== src/Base/Ctype.antt =====
-- The C library's character tests, in the "C" locale, and its comparisons of texts.
use Prim.Native.Nat.{ℕ, zero, suc, ◌+◌}
use mathlib.Core.Bool.{Bool, true, false, ◌&&◌, ◌||◌}
use mathlib.Core.List.{[], ◌∷◌}
use libudjat.Base.Tests.{leb, ◌==◌, if◌then◌else◌}
use libudjat.Base.Lists.{Bytes}

-- lo ≤ c ≤ hi
abbrev pub within : ℕ → ℕ → ℕ → Bool
within lo hi c = leb lo c && leb c hi

unfoldable pub is_digit : ℕ → Bool
is_digit c = within b'0' b'9' c

unfoldable pub is_alnum : ℕ → Bool
is_alnum c = within b'0' b'9' c || within b'A' b'Z' c || within b'a' b'z' c

-- Space, and the five controls from `\t` to `\r`.
unfoldable pub is_space : ℕ → Bool
is_space c = c == 32 || within 9 13 c

unfoldable pub to_lower : ℕ → ℕ
to_lower c = if within b'A' b'Z' c then c + 32 else c

-- `strcasecmp(a,b) == 0`.
unfoldable pub case_eq : Bytes → Bytes → Bool
unfolding to_lower
case_eq [] [] = true
case_eq (x ∷ xs) (y ∷ ys) = to_lower x == to_lower y && case_eq xs ys
case_eq _ _ = false

-- `strncasecmp(a,b,n) == 0`: texts are compared up to `n` bytes or the end of one of them.
unfoldable pub ncase_eq : ℕ → Bytes → Bytes → Bool
unfolding to_lower
ncase_eq zero xs ys = true
ncase_eq (suc n) [] [] = true
ncase_eq (suc n) (x ∷ xs) (y ∷ ys) = to_lower x == to_lower y && ncase_eq n xs ys
ncase_eq (suc n) _ _ = false

-- `strncmp(a,b,n) == 0`.
unfoldable pub n_eq : ℕ → Bytes → Bytes → Bool
n_eq zero xs ys = true
n_eq (suc n) [] [] = true
n_eq (suc n) (x ∷ xs) (y ∷ ys) = x == y && n_eq n xs ys
n_eq (suc n) _ _ = false
