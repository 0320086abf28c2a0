-- ===== src/Value/Text/Digits.antt =====
-- The digits of a number tell it.
use libudjat.Base.{
  ℕ, zero, suc, ◌+◌, ◌-◌, ◌*◌, ◌/◌, ◌%◌, ◌^◌, ◌<◌, ◌≡◌, refl, sym, subst, ◌∙◌, Bool, true, false,
  [], ◌∷◌, ◌++◌, append_assoc, arith, ltb, if◌then◌else◌, ltb→lt, lt→ltb, Bytes, length,
  length-append, is_digit,
}
use libudjat.Text.Units.AsUll.{decimal, AreDigits}
use libudjat.Value.Text.{digits}

decimal-append : (acc : ℕ) (ds es : Bytes) → decimal acc (ds ++ es) ≡ decimal (decimal acc ds) es
decimal-append acc [] es = refl
decimal-append acc (d ∷ ds) es = decimal-append (acc * 10 + (d - 48)) ds es

AreDigits-append : (ds es : Bytes) → AreDigits ds → AreDigits es → AreDigits (ds ++ es)
AreDigits-append [] es h k = k
AreDigits-append (d ∷ ds) es h k = (h.0, AreDigits-append ds es h.1 k)

is_digit-add : (n : ℕ) → n < 10 → is_digit (b'0' + n) ≡ true
unfolding is_digit
is_digit-add n h = ground arith

-- Digits in front of a text, of the value `n`.
abbrev pub AreDigitsOf : ℕ → Bytes → Bytes → Type 0
AreDigitsOf n behind s =
    (ds : Bytes) × (s ≡ ds ++ behind) × AreDigits ds × (decimal 0 ds ≡ n) × (0 < length ds)

-- The last digit, behind those of the tenth.
tenth-AreDigitsOf :
    (n : ℕ) (behind s : Bytes)
    → AreDigitsOf (n / 10) ((b'0' + n % 10) ∷ behind) s
    → AreDigitsOf n behind s
tenth-AreDigitsOf n behind s (ds, e, are, value, some_are) = (
  ds ++ (b'0' + n % 10) ∷ [],
  e ∙ sym (append_assoc ds ((b'0' + n % 10) ∷ []) behind),
  AreDigits-append ds ((b'0' + n % 10) ∷ []) are (is_digit-add (n % 10) (omega arith), tt),
  decimal-append 0 ds ((b'0' + n % 10) ∷ []) ∙ omega (arith, value),
  omega (arith, length-append ds ((b'0' + n % 10) ∷ [])),
)

tenth : (f n : ℕ) → n < 10 ^ suc (suc f) → n / 10 < 10 ^ suc f
tenth f n h = by_power (10 ^ suc f) (power (suc f)) h
  where
    power : (k : ℕ) → 10 ^ suc k ≡ 10 * 10 ^ k
    power k = omega arith

    by_power : (p : ℕ) → 10 ^ suc (suc f) ≡ 10 * p → n < 10 ^ suc (suc f) → n / 10 < p
    by_power p e h = omega (arith, subst (λ q. n < q) e h)

pub digits-AreDigitsOf :
    (fuel n : ℕ) (behind : Bytes)
    → n < 10 ^ suc fuel
    → AreDigitsOf n behind (digits (suc fuel) n behind)
unfolding digits
digits-AreDigitsOf zero n behind h =
    rw (lt→ltb n 10 h) ((b'0' + n) ∷ [], refl, (is_digit-add n h, tt), omega arith, omega arith)
digits-AreDigitsOf (suc f) n behind h =
    by_test (ltb n 10) refl (digits-AreDigitsOf f (n / 10) ((b'0' + n % 10) ∷ behind) (tenth f n h))
  where
    by_test :
        (b : Bool)
        → ltb n 10 ≡ b
        → AreDigitsOf
            (n / 10)
            ((b'0' + n % 10) ∷ behind)
            (digits (suc f) (n / 10) ((b'0' + n % 10) ∷ behind))
        → AreDigitsOf n behind
            (if b then (b'0' + n) ∷ behind else digits (suc f) (n / 10) ((b'0' + n % 10) ∷ behind))
    by_test true e ih =
        ((b'0' + n) ∷ [], refl, (is_digit-add n (ltb→lt n 10 e), tt), omega arith, omega arith)
    by_test false e ih = tenth-AreDigitsOf n behind _ ih
