-- ===== src/TimeStamp/Spans.antt =====
-- A span that is written as numbers of units is parsed.
use libudjat.Base.{
  ℕ, zero, suc, ◌+◌, ◌*◌, ◌%◌, ◌^◌, ◌≤◌, ◌<◌, ◌≡◌, refl, sym, ap, subst, ◌∙◌, ◌⊎◌, inl, inr, Bool,
  true, false, ◌||◌, none, List, [], ◌∷◌, ◌++◌, append-nil, append_assoc, arith, ◌==◌, Bytes, codes,
  length, length-append, All, is_digit, is_space, to_lower, case_eq, ok,
}
use libudjat.TimeStamp.Amounts.{
  AreMarks, NoLetterFirst, unit_seconds, word_text, amount_text, span_text, span_seconds, IsAmount,
  number_text-AreDigitsOf, parse_part-amount, TimeWord, Amount, second, minute, hour, day,
}
use libudjat.TimeStamp.{
  is_punct, parse_part, parse_span, Strptime, time_formats, try_formats, parse_any, parse,
}
use libudjat.Text.Units.AsUll.{AreDigits}
use libudjat.Value.Text.{number_text}

-- A span begins with a mark or a digit.
abbrev StartsSpan : Bytes → Type 0
unfolding is_digit is_punct is_space
StartsSpan [] = Unit
StartsSpan (c ∷ cs) = ((is_punct c || is_space c) ≡ true) ⊎ (is_digit c ≡ true)

amount-StartsSpan : (before s : Bytes) → AreMarks before → StartsSpan s → StartsSpan (before ++ s)
unfolding AreMarks StartsSpan
amount-StartsSpan [] s h k = k
amount-StartsSpan (c ∷ cs) s h k = inl h.0

digits-StartsSpan : (ds rest : Bytes) → AreDigits ds → 0 < length ds → StartsSpan (ds ++ rest)
unfolding StartsSpan
digits-StartsSpan [] rest h k = absurd (omega (arith, k))
digits-StartsSpan (d ∷ ds) rest h k = inr h.0

number_text-StartsSpan : (n : ℕ) (rest : Bytes) → n < 2 ^ 64 → StartsSpan (number_text n ++ rest)
number_text-StartsSpan n rest h =
    let (ds, e, are, value, some_are) = number_text-AreDigitsOf n h in
    subst (λ s. StartsSpan (s ++ rest)) (sym (e ∙ append-nil ds))
      (digits-StartsSpan ds rest are some_are)

span_text-StartsSpan :
    (amounts : List Amount) → All IsAmount amounts → StartsSpan (span_text amounts)
unfolding StartsSpan span_text IsAmount
span_text-StartsSpan [] h = tt
span_text-StartsSpan (a ∷ amounts) ((b, n, g), h) =
    subst StartsSpan (sym (append_assoc a.before _ (span_text amounts))) (
      amount-StartsSpan a.before
        ((number_text a.number ++ (a.gap ++ word_text a.word a.many)) ++ span_text amounts) b
        (subst StartsSpan
          (sym (
            append_assoc (number_text a.number) (a.gap ++ word_text a.word a.many)
              (span_text amounts)))
          (number_text-StartsSpan a.number ((a.gap ++ word_text a.word a.many) ++ span_text amounts)
            n)))

span-NoLetterFirst : (s : Bytes) → StartsSpan s → NoLetterFirst s
unfolding StartsSpan NoLetterFirst to_lower is_digit is_punct is_space
span-NoLetterFirst [] h = tt
span-NoLetterFirst (c ∷ cs) h = ground arith

span_first :
    (c : ℕ)
    → ((is_punct c || is_space c) ≡ true) ⊎ (is_digit c ≡ true)
    → (to_lower c == b'n') ≡ false
unfolding to_lower is_digit is_punct is_space
span_first c h = ground arith

span-not_now : (s : Bytes) → StartsSpan s → case_eq s (codes "now") ≡ false
unfolding StartsSpan case_eq
span-not_now [] h = refl
span-not_now (c ∷ cs) h = rw (span_first c h) refl

-- A round on a text that is not empty.
parse_span_step :
    (fuel value v : ℕ) (text rest : Bytes)
    → 0 < length text
    → parse_part (λ s. s) text ≡ ok (v, rest)
    → parse_span (λ s. s) (suc fuel) value text
      ≡ parse_span (λ s. s) fuel ((value + v) % 2 ^ 64) rest
unfolding parse_span
parse_span_step fuel value v [] rest h e = absurd (omega (arith, h))
parse_span_step fuel value v (c ∷ cs) rest h e = rw e refl

amount_text_some : (a : Amount) → 0 < length (amount_text a)
unfolding amount_text
amount_text_some a = omega (
  arith,
  length-append a.before (number_text a.number ++ (a.gap ++ word_text a.word a.many)),
  length-append (number_text a.number) (a.gap ++ word_text a.word a.many),
  length-append a.gap (word_text a.word a.many),
  word_some a.word a.many,
)
  where
    word_some : (w : TimeWord) (many : Bool) → 0 < length (word_text w many)
    word_some second true = omega arith
    word_some second false = omega arith
    word_some minute true = omega arith
    word_some minute false = omega arith
    word_some hour true = omega arith
    word_some hour false = omega arith
    word_some day true = omega arith
    word_some day false = omega arith

parse_span_nil : (fuel value : ℕ) → parse_span (λ s. s) fuel value [] ≡ ok value
unfolding parse_span
parse_span_nil fuel value = refl

parse_span-amounts :
    (amounts : List Amount) (fuel value : ℕ)
    → All IsAmount amounts
    → length (span_text amounts) ≤ fuel
    → value + span_seconds amounts < 2 ^ 63
    → parse_span (λ s. s) fuel value (span_text amounts) ≡ ok (value + span_seconds amounts)
unfolding span_text
parse_span-amounts [] fuel value h k l = parse_span_nil fuel value ∙ ap {A = ℕ} ok (omega arith)
parse_span-amounts (a ∷ amounts) zero value h k l =
    absurd (omega (arith, k, length-append (amount_text a) (span_text amounts), amount_text_some a))
parse_span-amounts (a ∷ amounts) (suc fuel) value h k l =
    let sum = value + a.number * unit_seconds a.word in
    parse_span_step fuel value (a.number * unit_seconds a.word) (amount_text a ++ span_text amounts)
      (span_text amounts)
      (omega (arith, length-append (amount_text a) (span_text amounts), amount_text_some a))
      (parse_part-amount a (span_text amounts) h.0
        (span-NoLetterFirst (span_text amounts) (span_text-StartsSpan amounts h.1))
        (omega (arith, l)))
    ∙ ap {A = ℕ} (λ n. parse_span (λ s. s) fuel n (span_text amounts)) (omega (arith, l))
    ∙ parse_span-amounts amounts fuel sum h.1
        (omega (arith, k, length-append (amount_text a) (span_text amounts), amount_text_some a))
        (omega (arith, l))
    ∙ ap {A = ℕ} ok (omega arith)

try_formats-none :
    (strptime : Strptime) (fs : List Bytes) (text : Bytes)
    → ((f : Bytes) → strptime f text ≡ none)
    → try_formats strptime fs text ≡ none
try_formats-none strptime [] text h = refl
try_formats-none strptime (f ∷ fs) text h =
    rw (h f, try_formats) (try_formats-none strptime fs text h)

-- A text of numbers, each below 2 ^ 64 and followed by a unit, of one or of many, with blanks and
-- punctuation before them and between number and unit, is parsed to the sum of the seconds, where
-- this sum is below 2 ^ 63, nothing is translated, no format is asked for, and the text is no time of
-- a known format.
pub parse-span_text :
    (strptime : Strptime) (now : ℕ) (amounts : List Amount)
    → All IsAmount amounts
    → span_seconds amounts < 2 ^ 63
    → ((f : Bytes) → strptime f (span_text amounts) ≡ none)
    → parse strptime (λ s. s) now [] (span_text amounts) ≡ ok (span_seconds amounts)
unfolding parse parse_any
parse-span_text strptime now amounts h l k =
    rw
      (
        span-not_now (span_text amounts) (span_text-StartsSpan amounts h),
        try_formats-none strptime time_formats (span_text amounts) k,
      )
      (parse_span-amounts amounts (length (span_text amounts) + 1) 0 h (omega arith)
          (omega (arith, l))
        ∙ ap {A = ℕ} ok (omega arith))
