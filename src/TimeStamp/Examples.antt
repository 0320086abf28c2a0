-- ===== src/TimeStamp/Examples.antt =====
-- Tests of TimeStamp.
use libudjat.Base.{ℕ, ◌≡◌, refl, ◌⊎◌, true, false, none, List, [], ◌∷◌, arith, codes, err, ok}
use libudjat.TimeStamp.{parse_span, Strptime, parse, to_verbose_string, unknown_unit}
use libudjat.TimeStamp.Amounts.{AreMarks, span_text, IsAmount, Amount, hour, day}
use libudjat.TimeStamp.Spans.{parse-span_text}
use libudjat.TimeStamp.Ends.{parse_span-ends}

abbrev unknown : Strptime
unknown = λ f s. none

verbose_days : to_verbose_string (λ s. s) 183900 ≡ codes "2 days, 3 hours and 5 minutes"
unfolding to_verbose_string
verbose_days = refl

-- What `to_verbose_string` writes of two units or more is no span.
verbose_refused : parse unknown (λ s. s) 0 [] (to_verbose_string (λ s. s) 183900) ≡ err unknown_unit
unfolding to_verbose_string parse
verbose_refused = refl

abbrev two_amounts : List Amount
two_amounts =
    record { before = []; number = 2; gap = codes " "; word = day; many = true }
    ∷ record { before = codes ", "; number = 1; gap = []; word = hour; many = false }
    ∷ []

parse-span_text_example : parse unknown (λ s. s) 0 [] (codes "2 days, 1hour") ≡ ok 176400
unfolding span_text AreMarks IsAmount
parse-span_text_example =
    parse-span_text unknown 0 two_amounts
      ((tt, omega arith, (refl, tt)), (((refl, (refl, tt)), omega arith, tt), tt)) (omega arith)
      (λ f. refl)

parse_span-ends_example :
    ((n : ℕ) × (parse_span (λ s. s) 4 0 (codes "5 kg") ≡ ok n))
    ⊎ (parse_span (λ s. s) 4 0 (codes "5 kg") ≡ err unknown_unit)
parse_span-ends_example = parse_span-ends (λ s. s) 4 0 (codes "5 kg") (omega arith)
