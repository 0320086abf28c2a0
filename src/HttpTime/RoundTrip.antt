-- ===== src/HttpTime/RoundTrip.antt =====
-- A time is read back from its text.
use libudjat.Base.{
  ℕ, zero, suc, ◌+◌, ◌^◌, ◌<◌, ◌≡◌, refl, sym, ap, subst, ◌∙◌, Bool, true, false, Option, none,
  some, List, [], ◌∷◌, ◌++◌, append-nil, arith, ltb, ◌==◌, if◌then◌else◌, ==→eq, passes_below,
  passes_below_at, Bytes, codes, length, get_or, drop, drop-append, All, is_digit, is_space,
  to_lower, case_eq, ok,
}
use libudjat.Text.Strip.{chug}
use libudjat.Text.Units.{scan_digits}
use libudjat.Text.Units.AsUll.{decimal, AreDigits, NoDigitFirst, scan_digits-append, chug-digit}
use libudjat.Value.Text.{number_text}
use libudjat.Value.Text.Digits.{AreDigitsOf, digits-AreDigitsOf}
use libudjat.HttpTime.{
  months, days, two_digits, tm_text, to_string, month_loop, get_month, skip_to_digit, scanned,
  scan_int, up_to, scan_word, ◌then◌, scan_fields, parsed_fields, from_digit, set, Tm,
}

-- What `gmtime` keeps to: the fields are in range, and the year has no more digits than a 64-bit
-- number.
pub record IsTm (tm : Tm) : Type 0 where
  pub mon : tm.mon < 12
  pub mday : tm.mday < 32
  pub year : tm.year < 2 ^ 63
  pub hour : tm.hour < 24
  pub minute : tm.minute < 60
  pub second : tm.second < 61

All-get_or :
    {A : Type 0} (Q : A → Type 0) (xs : List A) (i : ℕ) (d : A)
    → All Q xs
    → i < length xs
    → Q (get_or xs i d)
All-get_or Q [] i d h l = absurd (omega (arith, l))
All-get_or Q (x ∷ xs) zero d h l = h.0
All-get_or Q (x ∷ xs) (suc i) d h l = All-get_or Q xs i d h.1 (omega (arith, l))

-- A number with its two digits is digits of its value.
two_digits-AreDigitsOf : (n : ℕ) → n < 2 ^ 63 → AreDigitsOf n [] (two_digits n)
unfolding two_digits number_text is_digit
two_digits-AreDigitsOf n h = by_test (ltb n 10) (digits-AreDigitsOf 19 n [] (omega (arith, h)))
  where
    by_test :
        (b : Bool)
        → AreDigitsOf n [] (number_text n)
        → AreDigitsOf n [] (if b then b'0' ∷ number_text n else number_text n)
    by_test false d = d
    by_test true (ds, e, are, value, some_are) =
        (b'0' ∷ ds, ap (◌∷◌ b'0') e, (zero_digit, are), value, omega (arith, some_are))
      where
        zero_digit : is_digit b'0' ≡ true
        zero_digit = refl

-- It is scanned, behind a space or not, up to what is no digit.
scan_int-two_digits :
    (n : ℕ) (rest : Bytes)
    → n < 2 ^ 63
    → NoDigitFirst rest
    → (scan_int (two_digits n ++ rest) ≡ some (n, rest))
      × (scan_int (b' ' ∷ (two_digits n ++ rest)) ≡ some (n, rest))
unfolding scan_int chug is_space
scan_int-two_digits n rest h k = by_digits (two_digits-AreDigitsOf n h)
  where
    first : (ds : Bytes) → AreDigits ds → 0 < length ds → chug (ds ++ rest) ≡ ds ++ rest
    first [] are l = absurd (omega (arith, l))
    first (d ∷ ds) are l = chug-digit d (ds ++ rest) are.0

    counted :
        (c : ℕ) (ds : Bytes) → 0 < c → scanned (ds ++ rest) (n, c) ≡ some (n, drop c (ds ++ rest))
    counted c ds l = rw (not_zero c l) refl
      where
        not_zero : (c : ℕ) → 0 < c → (c == 0) ≡ false
        not_zero c l = ground arith

    no_more : (c : ℕ) → 0 + c ≡ c
    no_more c = omega arith

    scan :
        (ds : Bytes)
        → AreDigits ds
        → decimal 0 ds ≡ n
        → 0 < length ds
        → scanned (chug (ds ++ rest)) (scan_digits 0 0 (chug (ds ++ rest))) ≡ some (n, rest)
    scan ds are value l =
        ap (λ s. scanned s (scan_digits 0 0 s)) (first ds are l)
        ∙ ap (scanned (ds ++ rest)) (scan_digits-append ds rest 0 0 are k)
        ∙ ap (λ v. scanned (ds ++ rest) (v, 0 + length ds)) value
        ∙ ap (λ c. scanned (ds ++ rest) (n, c)) (no_more (length ds))
        ∙ counted (length ds) ds l
        ∙ ap (λ r. some (n, r)) (drop-append ds rest)

    by_digits :
        AreDigitsOf n [] (two_digits n)
        → (scan_int (two_digits n ++ rest) ≡ some (n, rest))
          × (scan_int (b' ' ∷ (two_digits n ++ rest)) ≡ some (n, rest))
    by_digits (ds, e, are, value, l) =
        let same = e ∙ append-nil ds in
        (
          ap (λ s. scan_int (s ++ rest)) same ∙ scan ds are value l,
          ap (λ s. scan_int (b' ' ∷ (s ++ rest))) same ∙ scan ds are value l,
        )

-- The name of a month is scanned, and read as the month.
scan_word-months :
    (rest : Bytes)
    → All (λ s. scan_word (b' ' ∷ (s ++ (b' ' ∷ rest))) ≡ some (s, b' ' ∷ rest)) months
unfolding scan_word chug up_to is_space
scan_word-months rest = (
  refl,
  (refl, (refl, (refl, (refl, (refl, (refl, (refl, (refl, (refl, (refl, (refl, tt))))))))))),
)

reads_month : ℕ → Bool
reads_month k = elim (get_month (get_or months k [])) [ none ↦ false | some n ↦ n == k ]

get_month-months : (k : ℕ) → k < 12 → get_month (get_or months k []) ≡ some k
unfolding reads_month get_month month_loop case_eq to_lower passes_below
get_month-months k l =
    by_read (get_month (get_or months k [])) (passes_below_at reads_month 12 k refl l)
  where
    by_read :
        (o : Option ℕ)
        → (elim o as (λ o. Bool) [ none ↦ false | some n ↦ n == k ]) ≡ true
        → o ≡ some k
    by_read none h = cc
    by_read (some n) h = ap some (==→eq n k h)

-- The name of the day and what follows it are passed over.
skip_to_digit-days :
    (rest : Bytes) → All (λ s. skip_to_digit (s ++ (codes ", " ++ rest)) ≡ skip_to_digit rest) days
unfolding skip_to_digit is_digit
skip_to_digit-days rest = (refl, (refl, (refl, (refl, (refl, (refl, (refl, tt)))))))

skip_to_digit-AreDigits :
    (ds rest : Bytes) → AreDigits ds → 0 < length ds → skip_to_digit (ds ++ rest) ≡ ds ++ rest
unfolding skip_to_digit
skip_to_digit-AreDigits [] rest h l = absurd (omega (arith, l))
skip_to_digit-AreDigits (d ∷ ds) rest h l = rw h.0 refl

scan_fields-tm_text :
    (tm : Tm)
    → IsTm tm
    → scan_fields (tm_text tm) ≡ some (get_or months tm.mon [], record tm { mon = 0 })
unfolding scan_fields tm_text
scan_fields-tm_text tm h =
    rw
      (
        (scan_int-two_digits tm.mday r1 (omega (arith, h.mday)) refl).0,
        All-get_or (λ s. scan_word (b' ' ∷ (s ++ r2)) ≡ some (s, r2)) months tm.mon []
            (scan_word-months (two_digits tm.year ++ r3)) h.mon,
        (scan_int-two_digits tm.year r3 h.year refl).1,
        (scan_int-two_digits tm.hour r4 (omega (arith, h.hour)) refl).1,
        (scan_int-two_digits tm.minute r5 (omega (arith, h.minute)) refl).0,
        (scan_int-two_digits tm.second (codes " GMT") (omega (arith, h.second)) refl).0,
      )
      refl
  where
    r5 : Bytes
    r5 = b':' ∷ (two_digits tm.second ++ codes " GMT")

    r4 : Bytes
    r4 = b':' ∷ (two_digits tm.minute ++ r5)

    r3 : Bytes
    r3 = b' ' ∷ (two_digits tm.hour ++ r4)

    r2 : Bytes
    r2 = b' ' ∷ (two_digits tm.year ++ r3)

    r1 : Bytes
    r1 = b' ' ∷ (get_or months tm.mon [] ++ r2)

from_digit-scan_fields :
    (timegm : Tm → ℕ) (s rest : Bytes)
    → 0 < length s
    → from_digit timegm (s ++ rest) ≡ parsed_fields timegm (scan_fields (s ++ rest))
unfolding from_digit
from_digit-scan_fields timegm [] rest l = absurd (omega (arith, l))
from_digit-scan_fields timegm (c ∷ cs) rest l = refl

two_digits-AreDigits : (n : ℕ) → n < 2 ^ 63 → AreDigits (two_digits n) × (0 < length (two_digits n))
two_digits-AreDigits n h = by_digits (two_digits-AreDigitsOf n h)
  where
    by_digits :
        AreDigitsOf n [] (two_digits n) → AreDigits (two_digits n) × (0 < length (two_digits n))
    by_digits (ds, e, are, value, l) =
        subst (λ s. AreDigits s × (0 < length s)) (sym (e ∙ append-nil ds)) (are, l)

-- The fields, with the month by its name, are read back.
from_digit-tm_text :
    (timegm : Tm → ℕ) (tm : Tm)
    → IsTm tm
    → from_digit timegm (skip_to_digit (tm_text tm)) ≡ ok (timegm tm)
unfolding tm_text parsed_fields
from_digit-tm_text timegm tm h =
    let (are, l) = two_digits-AreDigits tm.mday (omega (arith, h.mday)) in
    ap (from_digit timegm) (skip_to_digit-AreDigits (two_digits tm.mday) _ are l)
    ∙ from_digit-scan_fields timegm (two_digits tm.mday) _ l
    ∙ ap (parsed_fields timegm) (scan_fields-tm_text tm h)
    ∙ rw (get_month-months tm.mon h.mon) refl

-- A time that is not 0 is written and read back as itself, where `timegm` undoes `gmtime` and the
-- fields that `gmtime` gives are in range.
pub set-to_string :
    (gmtime : ℕ → ℕ × Tm) (timegm : Tm → ℕ) (value : ℕ)
    → 0 < value
    → (gmtime value).0 < 7
    → IsTm (gmtime value).1
    → timegm (gmtime value).1 ≡ value
    → set timegm (to_string gmtime value) ≡ ok value
unfolding set to_string parsed_fields
set-to_string gmtime timegm value pos day h undone = rw (not_zero value pos) (
    ap (from_digit timegm) (
      All-get_or (λ s. skip_to_digit (s ++ (codes ", " ++ tm_text tm)) ≡ skip_to_digit (tm_text tm))
        days (gmtime value).0 [] (skip_to_digit-days (tm_text tm)) day)
    ∙ from_digit-tm_text timegm tm h
    ∙ ap ok undone)
  where
    tm : Tm
    tm = (gmtime value).1

    not_zero : (v : ℕ) → 0 < v → (v == 0) ≡ false
    not_zero v p = ground arith
