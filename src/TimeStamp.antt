-- ===== src/TimeStamp.antt =====
-- src/library/tools/timestamp.cc: the text of a span of time, and the parser of times and of spans.
-- What `strptime` with `mktime` makes of a text, and the translations, are parameters. The clock is
-- an argument. A time_t of the parser is its 64 bits, and wraps around; the overflow of the signed
-- number, from 2 ^ 63 on, is undefined in C++, so that nothing is stated of it but that the parser ends.

pub mod Ends
pub mod Amounts
pub mod Spans
mod Examples
use libudjat.Base.{
  ℕ, zero, suc, ◌+◌, ◌-◌, ◌*◌, ◌/◌, ◌%◌, ◌^◌, Bool, ◌||◌, Option, none, some, List, [], ◌∷◌, ◌++◌,
  ltb, ◌==◌, if◌then◌else◌, Bytes, codes, length, take, drop, within, is_digit, is_space, case_eq,
  ncase_eq, ◌>>=◌, Result, err, ok,
}
use libudjat.Text.Split.{find_sub}
use libudjat.Value.Text.{number_text}

-- `ispunct`
unfoldable pub is_punct : ℕ → Bool
is_punct c = within 33 47 c || within 58 64 c || within 91 96 c || within 123 126 c

-- The table of the units.
pub record TimeUnit : Type 0 where
  pub value : ℕ
  pub singular : Bytes
  pub plural : Bytes

abbrev time_unit : ℕ → Bytes → Bytes → TimeUnit
time_unit v s p = record { value = v; singular = s; plural = p }

abbrev pub time_units : List TimeUnit
time_units =
    time_unit 1 (codes "second") (codes "seconds")
    ∷ time_unit 60 (codes "minute") (codes "minutes")
    ∷ time_unit 3600 (codes "hour") (codes "hours")
    ∷ time_unit 86400 (codes "day") (codes "days")
    ∷ []

-- `compare`: how much of a text the unit is, or 0.
unfoldable pub compare_word : Bytes → Bytes → ℕ
unfolding ncase_eq
compare_word word ptr = if ncase_eq (length word) ptr word then length word else 0

abbrev pub or_next : ℕ → ℕ → ℕ
or_next n m = if n == 0 then m else n

unfoldable pub compare_unit : (Bytes → Bytes) → TimeUnit → Bytes → ℕ
unfolding compare_word
compare_unit translate u ptr = or_next (compare_word u.plural ptr) (
    or_next (compare_word u.singular ptr)
      (or_next (compare_word (translate u.plural) ptr) (compare_word (translate u.singular) ptr)))

unfoldable pub find_unit : (Bytes → Bytes) → Bytes → List TimeUnit → Option (ℕ × ℕ)
unfolding compare_unit
find_unit translate ptr [] = none
find_unit translate ptr (u ∷ us) =
    let rest = find_unit translate ptr us in
    let len = compare_unit translate u ptr in if len == 0 then rest else some (len, u.value)

-- The loops over blanks and digits.
unfoldable pub skip_marks : Bytes → Bytes
unfolding is_punct is_space
skip_marks [] = []
skip_marks (c ∷ cs) = let rest = skip_marks cs in if is_punct c || is_space c then rest else c ∷ cs

unfoldable pub scan_number : ℕ → Bytes → ℕ × Bytes
unfolding is_digit
scan_number v [] = (v, [])
scan_number v (c ∷ cs) =
    let next = scan_number ((v * 10 + (c - b'0')) % 2 ^ 64) cs in
    if is_digit c then next else (v, c ∷ cs)

pub data TimeError : Type 0 where
  wrong_format unknown_unit no_fuel : TimeError

-- A round of the loop of `parse`: its value, and what is left of the text.
abbrev pub times_unit : ℕ → Bytes → Option (ℕ × ℕ) → Result TimeError (ℕ × Bytes)
times_unit v ptr none = err unknown_unit
times_unit v ptr (some (len, unit)) = ok ((v * unit) % 2 ^ 64, drop len ptr)

abbrev pub scaled : (Bytes → Bytes) → ℕ → Bytes → Result TimeError (ℕ × Bytes)
unfolding find_unit
scaled translate v [] = ok (v, [])
scaled translate v (c ∷ cs) = times_unit v (c ∷ cs) (find_unit translate (c ∷ cs) time_units)

unfoldable pub parse_part : (Bytes → Bytes) → Bytes → Result TimeError (ℕ × Bytes)
unfolding scaled skip_marks scan_number
parse_part translate ptr =
    let (v, behind) = scan_number 0 (skip_marks ptr) in scaled translate v (skip_marks behind)

unfoldable pub parse_span : (Bytes → Bytes) → ℕ → ℕ → Bytes → Result TimeError ℕ
unfolding parse_part
parse_span translate fuel value [] = ok value
parse_span translate zero value (c ∷ cs) = err no_fuel
parse_span translate (suc fuel) value (c ∷ cs) = do
  (v, ptr) ← parse_part translate (c ∷ cs)
  parse_span translate fuel ((value + v) % 2 ^ 64) ptr

-- `strptime` with a format and `mktime`: the time of a text, if it fits.
abbrev pub Strptime : Type 0
Strptime = Bytes → Bytes → Option ℕ

abbrev pub time_formats : List Bytes
time_formats = codes "%Y-%m-%d %T" ∷ codes "%y-%m-%d %T" ∷ codes "%x %X" ∷ []

abbrev pub try_formats : Strptime → List Bytes → Bytes → Option ℕ
try_formats strptime [] text = none
try_formats strptime (f ∷ fs) text = elim (strptime f text) [
  | none ↦ try_formats strptime fs text
  | some t ↦ some t
]

-- `parse`
abbrev pub parse_any : Strptime → (Bytes → Bytes) → Bytes → Result TimeError ℕ
unfolding parse_span
parse_any strptime translate text = elim (try_formats strptime time_formats text) [
  | some t ↦ ok t
  | none ↦ parse_span translate (length text + 1) 0 text
]

abbrev pub parse_as : Strptime → Bytes → Bytes → Result TimeError ℕ
parse_as strptime format text = elim (strptime format text) [
  | none ↦ err wrong_format
  | some t ↦ ok t
]

unfoldable pub parse : Strptime → (Bytes → Bytes) → ℕ → Bytes → Bytes → Result TimeError ℕ
unfolding case_eq parse_any
parse strptime translate now format text =
    if case_eq text (codes "now") then ok now else elim format [
      | [] ↦ parse_any strptime translate text
      | f ∷ fs ↦ parse_as strptime (f ∷ fs) text
    ]

-- `to_verbose_string`
abbrev pub verbose_formats : List (ℕ × Bytes)
verbose_formats =
    (1, codes "{d} {D}")
    ∷ (2, codes "{h} {H}")
    ∷ (3, codes "{d} {D} and {h} {H}")
    ∷ (4, codes "{m} {M}")
    ∷ (5, codes "{d} {D} and {m} {M}")
    ∷ (6, codes "{h} {H} and {m} {M}")
    ∷ (7, codes "{d} {D}, {h} {H} and {m} {M}")
    ∷ []

abbrev pub format_of : ℕ → List (ℕ × Bytes) → Bytes
format_of key [] = []
format_of key ((k, f) ∷ fs) = let rest = format_of key fs in if k == key then f else rest

unfoldable pub replace_tag : Bytes × Bytes → Bytes → Bytes
unfolding find_sub
replace_tag (tag, text) out = elim (find_sub tag out) [
  | none ↦ out
  | some n ↦ take n out ++ (text ++ drop (n + length tag) out)
]

abbrev pub replace_tags : List (Bytes × Bytes) → Bytes → Bytes
unfolding replace_tag
replace_tags [] out = out
replace_tags (v ∷ vs) out = replace_tags vs (replace_tag v out)

abbrev pub word_of : (Bytes → Bytes) → ℕ → Bytes → Bytes → Bytes
word_of translate n singular plural = if ltb 1 n then translate plural else translate singular

abbrev pub tags_of : (Bytes → Bytes) → ℕ → ℕ → ℕ → List (Bytes × Bytes)
unfolding number_text
tags_of translate days hours mins =
    (codes "{d}", number_text days)
    ∷ (codes "{D}", word_of translate days (codes "day") (codes "days"))
    ∷ (codes "{h}", number_text hours)
    ∷ (codes "{H}", word_of translate hours (codes "hour") (codes "hours"))
    ∷ (codes "{m}", number_text mins)
    ∷ (codes "{M}", word_of translate mins (codes "minute") (codes "minutes"))
    ∷ []

abbrev pub one_if : ℕ → ℕ → ℕ
one_if n bit = if ltb 0 n then bit else 0

unfoldable pub to_verbose_string : (Bytes → Bytes) → ℕ → Bytes
unfolding replace_tags tags_of
to_verbose_string translate value =
    let days = value / 86400 in
    let hours = (value - days * 86400) / 3600 in
    let mins = (value - days * 86400 - hours * 3600) / 60 in
    let key = one_if days 1 + one_if hours 2 + one_if mins 4 in
    if value == 0
    then []
    else if ltb value 60
    then translate (codes "Less than one minute")
    else replace_tags (tags_of translate days hours mins)
        (translate (format_of key verbose_formats))
