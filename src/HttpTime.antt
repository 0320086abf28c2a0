-- ===== src/HttpTime.antt =====
-- src/library/tools/http/timestamp.cc: a time as the text of an HTTP header. `gmtime` and `timegm` of
-- the C library are parameters. Of `sscanf`, what the format uses is written out for numbers with no
-- sign; the text that is written is shorter than its buffer.
pub mod RoundTrip
mod Examples
use libudjat.Base.{
  ℕ, zero, suc, ◌+◌, Option, none, some, List, [], ◌∷◌, ◌++◌, ltb, ◌==◌, if◌then◌else◌, Bytes,
  codes, get_or, drop, count, is_digit, is_space, case_eq, Result, err, ok,
}
use libudjat.Text.Strip.{chug}
use libudjat.Text.Units.{scan_digits}
use libudjat.Value.Text.{number_text}

-- `month` and `days`
abbrev pub months : List Bytes
months =
    codes "Jan"
    ∷ codes "Feb"
    ∷ codes "Mar"
    ∷ codes "Apr"
    ∷ codes "May"
    ∷ codes "Jun"
    ∷ codes "Jul"
    ∷ codes "Aug"
    ∷ codes "Sep"
    ∷ codes "Oct"
    ∷ codes "Nov"
    ∷ codes "Dec"
    ∷ []

abbrev pub days : List Bytes
days =
    codes "Sun"
    ∷ codes "Mon"
    ∷ codes "Tue"
    ∷ codes "Wed"
    ∷ codes "Thu"
    ∷ codes "Fri"
    ∷ codes "Sat"
    ∷ []

-- The fields of `struct tm` but the day of the week; `year` is `tm_year + 1900`.
pub record Tm : Type 0 where
  pub mday : ℕ
  pub mon : ℕ
  pub year : ℕ
  pub hour : ℕ
  pub minute : ℕ
  pub second : ℕ

-- `%02d`
unfoldable pub two_digits : ℕ → Bytes
unfolding number_text
two_digits n = if ltb n 10 then b'0' ∷ number_text n else number_text n

unfoldable pub tm_text : Tm → Bytes
unfolding two_digits
tm_text tm =
    two_digits tm.mday
    ++ (b' '
        ∷ (get_or months tm.mon []
            ++ (b' '
                ∷ (two_digits tm.year
                    ++ (b' '
                        ∷ (two_digits tm.hour
                            ++ (b':'
                                ∷ (two_digits tm.minute
                                    ++ (b':' ∷ (two_digits tm.second ++ codes " GMT"))))))))))

-- `to_string`, from the day of the week and the other fields.
unfoldable pub to_string : (ℕ → ℕ × Tm) → ℕ → Bytes
unfolding tm_text
to_string gmtime value =
    if value == 0
    then []
    else get_or days (gmtime value).0 [] ++ (codes ", " ++ tm_text (gmtime value).1)

-- The loop of `getMonth`; `none` is the comparison with the null pointer that ends the names.
unfoldable pub month_loop : ℕ → Bytes → List Bytes → Option ℕ
unfolding case_eq
month_loop ix name [] = none
month_loop ix name (m ∷ ms) =
    let rest = month_loop (ix + 1) name ms in if case_eq m name then some ix else rest

unfoldable pub get_month : Bytes → Option ℕ
unfolding month_loop
get_month name = month_loop 0 name months

-- `while(*str && !isdigit(*str)) str++`
unfoldable pub skip_to_digit : Bytes → Bytes
unfolding is_digit
skip_to_digit [] = []
skip_to_digit (c ∷ cs) = let rest = skip_to_digit cs in if is_digit c then c ∷ cs else rest

-- `%d`: the number and what follows it.
abbrev pub scanned : Bytes → ℕ × ℕ → Option (ℕ × Bytes)
scanned s (value, count) = if count == 0 then none else some (value, drop count s)

unfoldable pub scan_int : Bytes → Option (ℕ × Bytes)
unfolding chug scan_digits
scan_int s = scanned (chug s) (scan_digits 0 0 (chug s))

-- `%3s`: at most three characters that are no spaces.
unfoldable pub up_to : ℕ → Bytes → Bytes × Bytes
unfolding is_space
up_to zero s = ([], s)
up_to (suc n) [] = ([], [])
up_to (suc n) (c ∷ cs) =
    let (word, rest) = up_to n cs in if is_space c then ([], c ∷ cs) else (c ∷ word, rest)

unfoldable pub scan_word : Bytes → Option (Bytes × Bytes)
unfolding chug up_to
scan_word s =
    let (word, rest) = up_to 3 (chug s) in elim word [ [] ↦ none | c ∷ cs ↦ some (c ∷ cs, rest) ]

abbrev pub scan_colon : Bytes → Option Bytes
scan_colon [] = none
scan_colon (c ∷ cs) = if c == b':' then some cs else none

-- `sscanf(str,"%d %3s %d %d:%d:%d",…)`: the fields and the name of the month.
infixl 5 ◌then◌
abbrev pub ◌then◌ : {A B : Type 0} → Option A → (A → Option B) → Option B
o then next = elim o [ none ↦ none | some a ↦ next a ]

unfoldable pub scan_fields : Bytes → Option (Bytes × Tm)
unfolding scan_int scan_word
scan_fields s = scan_int s then λ d. scan_word d.1 then λ m. scan_int m.1 then λ y.
    scan_int y.1 then λ h. scan_colon h.1 then λ a. scan_int a then λ i. scan_colon i.1 then λ b.
    scan_int b then λ s.
    some (m.0, record { mday = d.0; mon = 0; year = y.0; hour = h.0; minute = i.0; second = s.0 })

pub data Error : Type 0 where
  unexpected_timestamp null_month : Error

unfoldable pub parsed_fields : (Tm → ℕ) → Option (Bytes × Tm) → Result Error ℕ
unfolding get_month
parsed_fields timegm none = err unexpected_timestamp
parsed_fields timegm (some (name, tm)) = elim (get_month name) [
  | none ↦ err null_month
  | some m ↦ ok (timegm (record tm { mon = m }))
]

-- `set(str)`: a text with no digit is the time 0.
unfoldable pub from_digit : (Tm → ℕ) → Bytes → Result Error ℕ
unfolding scan_fields parsed_fields
from_digit timegm [] = ok 0
from_digit timegm (c ∷ cs) = parsed_fields timegm (scan_fields (c ∷ cs))

unfoldable pub set : (Tm → ℕ) → Bytes → Result Error ℕ
unfolding skip_to_digit from_digit
set timegm str = from_digit timegm (skip_to_digit str)
