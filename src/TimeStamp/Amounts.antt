-- ===== src/TimeStamp/Amounts.antt =====
-- A number of units is parsed.
use libudjat.Base.{
  ℕ, ◌+◌, ◌-◌, ◌*◌, ◌%◌, ◌^◌, ◌≤◌, ◌<◌, ◌≡◌, refl, ap, ◌∙◌, Bool, true, false, ◌||◌, List, [], ◌∷◌,
  ◌++◌, append-nil, append_assoc, arith, ◌==◌, Bytes, codes, length, All, is_digit, is_space,
  to_lower, ncase_eq, ok,
}
use libudjat.TimeStamp.{
  is_punct, compare_word, compare_unit, find_unit, skip_marks, scan_number, scaled, parse_part,
}
use libudjat.Text.Units.AsUll.{decimal, AreDigits, NoDigitFirst}
use libudjat.Value.Text.{number_text}
use libudjat.Value.Text.Digits.{AreDigitsOf, digits-AreDigitsOf}

-- What may stand between numbers and words.
unfoldable pub AreMarks : Bytes → Type 0
unfolding is_punct is_space
AreMarks = All (λ c. (is_punct c || is_space c) ≡ true)

-- The text behind a word: it does not go on with a letter.
unfoldable pub NoLetterFirst : Bytes → Type 0
unfolding to_lower
NoLetterFirst [] = Unit
NoLetterFirst (c ∷ cs) = (to_lower c == b's') ≡ false

skip_marks-append :
    (marks rest : Bytes) → AreMarks marks → skip_marks (marks ++ rest) ≡ skip_marks rest
unfolding skip_marks AreMarks
skip_marks-append [] rest h = refl
skip_marks-append (c ∷ cs) rest h = rw h.0 (skip_marks-append cs rest h.1)

skip_marks-digit : (d : ℕ) (s : Bytes) → is_digit d ≡ true → skip_marks (d ∷ s) ≡ d ∷ s
unfolding skip_marks is_digit is_punct is_space
skip_marks-digit d s h = ground arith

decimal_grows : (v : ℕ) (ds : Bytes) → v ≤ decimal v ds
decimal_grows v [] = omega arith
decimal_grows v (d ∷ ds) = omega (arith, decimal_grows (v * 10 + (d - b'0')) ds)

scan_number-append :
    (ds rest : Bytes) (v : ℕ)
    → AreDigits ds
    → NoDigitFirst rest
    → decimal v ds < 2 ^ 64
    → scan_number v (ds ++ rest) ≡ (decimal v ds, rest)
unfolding scan_number
scan_number-append [] [] v h k l = refl
scan_number-append [] (c ∷ rest) v h k l = rw k refl
scan_number-append (d ∷ ds) rest v h k l =
    let n = v * 10 + (d - b'0') in
    let fits : n % 2 ^ 64 ≡ n = omega (arith, l, decimal_grows n ds) in
    rw (h.0, fits) (scan_number-append ds rest n h.1 k l)

-- The units that a text may name, by the words of their table.
pub data TimeWord : Type 0 where
  second minute hour day : TimeWord

abbrev pub unit_seconds : TimeWord → ℕ
unit_seconds second = 1
unit_seconds minute = 60
unit_seconds hour = 3600
unit_seconds day = 86400

abbrev pub word_text : TimeWord → Bool → Bytes
word_text second true = codes "seconds"
word_text second false = codes "second"
word_text minute true = codes "minutes"
word_text minute false = codes "minute"
word_text hour true = codes "hours"
word_text hour false = codes "hour"
word_text day true = codes "days"
word_text day false = codes "day"

scaled-word :
    (v : ℕ) (w : TimeWord) (many : Bool) (rest : Bytes)
    → NoLetterFirst rest
    → scaled (λ s. s) v (skip_marks (word_text w many ++ rest))
      ≡ ok ((v * unit_seconds w) % 2 ^ 64, rest)
unfolding scaled skip_marks find_unit compare_unit compare_word ncase_eq NoLetterFirst
scaled-word v second true rest h = refl
scaled-word v second false [] h = refl
scaled-word v second false (c ∷ rest) h = rw h refl
scaled-word v minute true rest h = refl
scaled-word v minute false [] h = refl
scaled-word v minute false (c ∷ rest) h = rw h refl
scaled-word v hour true rest h = refl
scaled-word v hour false [] h = refl
scaled-word v hour false (c ∷ rest) h = rw h refl
scaled-word v day true rest h = refl
scaled-word v day false [] h = refl
scaled-word v day false (c ∷ rest) h = rw h refl

-- A number of units: marks, the number, marks, and a word, of one or of many.
pub record Amount : Type 0 where
  pub before : Bytes
  pub number : ℕ
  pub gap : Bytes
  pub word : TimeWord
  pub many : Bool

unfoldable pub amount_text : Amount → Bytes
unfolding number_text
amount_text a = a.before ++ (number_text a.number ++ (a.gap ++ word_text a.word a.many))

unfoldable pub span_text : List Amount → Bytes
unfolding amount_text
span_text [] = []
span_text (a ∷ rest) = amount_text a ++ span_text rest

abbrev pub span_seconds : List Amount → ℕ
span_seconds [] = 0
span_seconds (a ∷ rest) = a.number * unit_seconds a.word + span_seconds rest

unfoldable pub IsAmount : Amount → Type 0
unfolding AreMarks
IsAmount a = AreMarks a.before × (a.number < 2 ^ 64) × AreMarks a.gap

mark-not_digit : (c : ℕ) → (is_punct c || is_space c) ≡ true → is_digit c ≡ false
unfolding is_punct is_space is_digit
mark-not_digit c h = ground arith

word-NoDigitFirst :
    (w : TimeWord) (many : Bool) (rest : Bytes) → NoDigitFirst (word_text w many ++ rest)
unfolding is_digit
word-NoDigitFirst second true rest = refl
word-NoDigitFirst second false rest = refl
word-NoDigitFirst minute true rest = refl
word-NoDigitFirst minute false rest = refl
word-NoDigitFirst hour true rest = refl
word-NoDigitFirst hour false rest = refl
word-NoDigitFirst day true rest = refl
word-NoDigitFirst day false rest = refl

gap-NoDigitFirst :
    (gap rest : Bytes) → AreMarks gap → NoDigitFirst rest → NoDigitFirst (gap ++ rest)
unfolding AreMarks
gap-NoDigitFirst [] rest h k = k
gap-NoDigitFirst (c ∷ cs) rest h k = mark-not_digit c h.0

-- The digits of the number, in front of what follows them.
digits-skip :
    (ds rest : Bytes) → AreDigits ds → 0 < length ds → skip_marks (ds ++ rest) ≡ ds ++ rest
digits-skip [] rest h k = absurd (omega (arith, k))
digits-skip (d ∷ ds) rest h k = skip_marks-digit d (ds ++ rest) h.0

parse_part-digits :
    (before gap ds rest : Bytes) (w : TimeWord) (many : Bool)
    → AreMarks before
    → AreMarks gap
    → AreDigits ds
    → 0 < length ds
    → NoLetterFirst rest
    → decimal 0 ds < 2 ^ 64
    → parse_part (λ s. s) (before ++ (ds ++ (gap ++ (word_text w many ++ rest))))
      ≡ ok ((decimal 0 ds * unit_seconds w) % 2 ^ 64, rest)
unfolding parse_part
parse_part-digits before gap ds rest w many b g are some_are h l =
    ap (λ s. scaled (λ s. s) (scan_number 0 s).0 (skip_marks (scan_number 0 s).1))
      (skip_marks-append before (ds ++ (gap ++ (word_text w many ++ rest))) b
        ∙ digits-skip ds (gap ++ (word_text w many ++ rest)) are some_are)
    ∙ ap (λ p. scaled (λ s. s) p.0 (skip_marks p.1))
        (scan_number-append ds (gap ++ (word_text w many ++ rest)) 0 are
          (gap-NoDigitFirst gap (word_text w many ++ rest) g (word-NoDigitFirst w many rest)) l)
    ∙ ap (scaled (λ s. s) (decimal 0 ds)) (skip_marks-append gap (word_text w many ++ rest) g)
    ∙ scaled-word (decimal 0 ds) w many rest h

pub number_text-AreDigitsOf : (n : ℕ) → n < 2 ^ 64 → AreDigitsOf n [] (number_text n)
unfolding number_text
number_text-AreDigitsOf n h = digits-AreDigitsOf 19 n [] (omega (arith, h))

pub parse_part-amount :
    (a : Amount) (rest : Bytes)
    → IsAmount a
    → NoLetterFirst rest
    → a.number * unit_seconds a.word < 2 ^ 64
    → parse_part (λ s. s) (amount_text a ++ rest) ≡ ok (a.number * unit_seconds a.word, rest)
unfolding amount_text IsAmount
parse_part-amount a rest (b, n, g) h l =
    let (ds, e, are, value, some_are) = number_text-AreDigitsOf a.number n in
    ap (parse_part (λ s. s)) (parts (number_text a.number) ds (e ∙ append-nil ds))
    ∙ parse_part-digits a.before a.gap ds rest a.word a.many b g are some_are h
        (omega (arith, n, value))
    ∙ ap (λ m. ok ((m * unit_seconds a.word) % 2 ^ 64, rest)) value
    ∙ ap {A = ℕ} (λ m. ok (m, rest)) (omega (arith, l))
  where
    parts :
        (number ds : Bytes)
        → number ≡ ds
        → (a.before ++ (number ++ (a.gap ++ word_text a.word a.many))) ++ rest
          ≡ a.before ++ (ds ++ (a.gap ++ (word_text a.word a.many ++ rest)))
    parts number ds e = rw e (simp append_assoc)
