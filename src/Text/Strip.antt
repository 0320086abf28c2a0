-- ===== src/Text/Strip.antt =====
-- string.cc: `chomp`, `chug`, `strip` and `isnumber`.
pub mod Laws
use libudjat.Base.{
  ℕ, zero, suc, Bool, true, false, not, [], ◌∷◌, if◌then◌else◌, Bytes, length, get_or, take,
  is_digit, is_space,
}

-- The `while (len--)` of `chomp`: a blank at the end is overwritten by 0, which ends the text there.
unfoldable pub chomp_loop : ℕ → Bytes → Bytes
chomp_loop zero s = s
chomp_loop (suc len) s =
    let rest = chomp_loop len (take len s) in if is_space (get_or s len 0) then rest else s

unfoldable pub chomp : Bytes → Bytes
unfolding chomp_loop is_space
chomp s = chomp_loop (length s) s

-- `chug`: the text from its first character that is no blank.
unfoldable pub chug : Bytes → Bytes
unfolding is_space
chug [] = []
chug (c ∷ cs) = if is_space c then chug cs else c ∷ cs

unfoldable pub strip : Bytes → Bytes
unfolding chomp chug
strip s = chomp (chug s)

-- `isnumber`: no character but digits. The empty text is a number too.
unfoldable pub is_number : Bytes → Bool
unfolding is_digit
is_number [] = true
is_number (c ∷ cs) = let rest = is_number cs in if not (is_digit c) then false else rest
