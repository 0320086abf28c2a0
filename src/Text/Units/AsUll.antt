-- ===== src/Text/Units/AsUll.antt =====
-- `as_ull` on a number with a unit.
use libudjat.Base.{
  ℕ, suc, ◌+◌, ◌-◌, ◌*◌, ◌^◌, ◌<◌, ◌≡◌, refl, ap, ◌∙◌, true, false, [], ◌∷◌, ◌++◌, arith, ltb,
  if◌then◌else◌, Bytes, length, drop, length-append, All, count, is_digit, err, ok,
}
use libudjat.Text.Strip.{chug}
use libudjat.Text.Units.{string_to_byte, scan_digits, checked, signed, stoll, as_ull, out_of_bounds}

-- The number that digits write, after `acc`.
abbrev pub decimal : ℕ → Bytes → ℕ
decimal acc [] = acc
decimal acc (c ∷ cs) = decimal (acc * 10 + (c - b'0')) cs

abbrev pub AreDigits : Bytes → Type 0
AreDigits = All (λ c. is_digit c ≡ true)

abbrev pub NoDigitFirst : Bytes → Type 0
NoDigitFirst [] = Unit
NoDigitFirst (c ∷ cs) = is_digit c ≡ false

pub scan_digits-append :
    (ds rest : Bytes) (acc n : ℕ)
    → AreDigits ds
    → NoDigitFirst rest
    → scan_digits acc n (ds ++ rest) ≡ (decimal acc ds, n + length ds)
unfolding scan_digits
scan_digits-append [] [] acc n h k = ground arith
scan_digits-append [] (c ∷ rest) acc n h k = ground arith
scan_digits-append (c ∷ ds) rest acc n h k =
    ground (arith, scan_digits-append ds rest (acc * 10 + (c - b'0')) (n + 1) h.1 k)

pub chug-digit : (d : ℕ) (cs : Bytes) → is_digit d ≡ true → chug (d ∷ cs) ≡ d ∷ cs
unfolding chug is_digit
chug-digit d cs h = ground arith

signed-digit :
    (skipped d : ℕ) (cs : Bytes)
    → is_digit d ≡ true
    → signed skipped (d ∷ cs) ≡ checked false skipped (scan_digits 0 0 (d ∷ cs))
unfolding signed is_digit
signed-digit skipped d cs h = ground arith

checked-fits :
    (skipped value count : ℕ)
    → 0 < count
    → value < 2 ^ 63
    → checked false skipped (value, count) ≡ ok (value, skipped + count)
unfolding checked
checked-fits skipped value count h v = ground arith

stoll-digits :
    (d : ℕ) (ds rest : Bytes)
    → AreDigits (d ∷ ds)
    → NoDigitFirst rest
    → decimal 0 (d ∷ ds) < 2 ^ 63
    → stoll (d ∷ ds ++ rest) ≡ ok (decimal 0 (d ∷ ds), length (d ∷ ds))
unfolding stoll
stoll-digits d ds rest h k v =
    let whole : Bytes = d ∷ (ds ++ rest) in
    let none_skipped : length whole - length whole ≡ 0 = omega arith in
    let counted : 0 + (0 + length (d ∷ ds)) ≡ length (d ∷ ds) = omega arith in
    rw (chug-digit d (ds ++ rest) h.0, none_skipped)
      (signed-digit 0 d (ds ++ rest) h.0
        ∙ ap (checked false 0) (scan_digits-append (d ∷ ds) rest 0 0 h k)
        ∙ checked-fits 0 (decimal 0 (d ∷ ds)) (0 + length (d ∷ ds)) (omega arith) v
        ∙ ap (λ n. ok (decimal 0 (d ∷ ds), n)) counted)

drop_twice : (xs ys : Bytes) → drop (length xs + length xs) (xs ++ ys) ≡ drop (length xs) ys
drop_twice xs ys = go xs (length xs) (length xs + length xs) refl
  where
    go : (xs : Bytes) (m n : ℕ) → n ≡ length xs + m → drop n (xs ++ ys) ≡ drop m ys
    go [] m n e = ap (λ k. drop k ys) (omega arith)
    go (x ∷ xs) m n e =
        let f : n ≡ suc (length xs + m) = omega arith in rw f (go xs m (length xs + m) refl)

-- A number and what follows it: `as_ull` looks for the unit as many characters too far on as the
-- number has digits, and behind the end of the text if less than that follows the number.
pub as_ull_misses_unit :
    (d : ℕ) (ds rest : Bytes)
    → AreDigits (d ∷ ds)
    → NoDigitFirst rest
    → decimal 0 (d ∷ ds) < 2 ^ 63
    → as_ull (d ∷ ds ++ rest) ≡ (
        if ltb (length rest) (length (d ∷ ds))
        then err out_of_bounds
        else ok (string_to_byte (decimal 0 (d ∷ ds)) (drop (length (d ∷ ds)) rest)))
unfolding as_ull
as_ull_misses_unit d ds rest h k v =
    rw (stoll-digits d ds rest h k v, drop_twice (d ∷ ds) rest)
      (ground (arith, length-append (d ∷ ds) rest))
