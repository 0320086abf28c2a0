-- ===== src/Text/Expand.antt =====
-- src/library/tools/string/expand.cc: `String::expand`. The function that gives a key its value is a
-- parameter: the caller's, and `expand_value` after it, which asks the configuration and the
-- environment. The loop runs on fuel, and `none` is a run out of it.
pub mod Count
pub mod Total
mod Examples
use mathlib.Core.Option
use libudjat.Base.{
  ℕ, zero, suc, ◌+◌, ◌-◌, not, ◌&&◌, Option, none, some, List, [], ◌∷◌, ◌++◌, ltb, ◌==◌,
  if◌then◌else◌, Bytes, codes, length, take, drop, count, c_str, ◌>>=◌, Result, err, ok,
}
use libudjat.Text.Strip.{is_number}
use libudjat.Text.Split.{find_sub, split}
use libudjat.Text.Units.{scan_digits}

pub data Error : Type 0 where
  invalid_use invalid_range bad_position : Error

-- `find(text,from)`
abbrev pub find_at : Bytes → ℕ → Bytes → Option ℕ
find_at text from s = Option.map (λ n. from + n) (find_sub text (drop from s))

-- The two values of a range. Numbers are ints: this is right below 2 ^ 31.
unfoldable pub range_of_values : Bytes → List Bytes → Result Error (Bytes × ℕ × ℕ)
unfolding is_number scan_digits
range_of_values key (a ∷ b ∷ rest) =
    if not (is_number a && is_number b)
    then err invalid_range
    else if (scan_digits 0 0 a).0 == (scan_digits 0 0 b).0
    then err invalid_range
    else ok (key, (scan_digits 0 0 a).0, (scan_digits 0 0 b).0)
range_of_values key _ = err invalid_range

-- The key without its range, and the range, from 0 to 0 if there is none. `split` always has a
-- result.
unfoldable pub range_of : Bytes → Result Error (Bytes × ℕ × ℕ)
unfolding find_sub split range_of_values
range_of key = elim (find_at (codes "[") 0 key) [
  | none ↦ ok (key, 0, 0)
  | some ix ↦ elim (find_at (codes "]") (ix + 1) key) [
    | none ↦ err invalid_range
    | some iy ↦ elim (split (codes ":") 0 (take (iy - (ix + 1)) (drop (ix + 1) key))) [
      | none ↦ err invalid_range
      | some vals ↦ range_of_values (take ix key) vals
    ]
  ]
]

-- `value.substr(…)`, where the range is not empty.
abbrev pub cut : ℕ → ℕ → Bytes → Result Error Bytes
cut a b value =
    if ltb a b
    then if ltb (length value) a then err bad_position else ok (take (b - a) (drop a value))
    else ok value

-- `replace`
abbrev pub replace : ℕ → ℕ → Bytes → Bytes → Bytes
replace from end value s = take from s ++ (c_str value ++ drop end s)

-- What a marker at `from`, that is closed at `close`, makes of the text: the next place to search
-- from, and the text.
unfoldable pub expand_at : (Bytes → Option Bytes) → ℕ → ℕ → Bytes → Result Error (ℕ × Bytes)
unfolding range_of c_str
expand_at expander from close s = do
  (key, a, b) ← range_of (take (close - from - 2) (drop (from + 2) s))
  elim (expander (c_str key)) [
    | none ↦ ok (close + 1, s)
    | some value ↦ elim (cut a b value) [
      | err e ↦ err e
      | ok part ↦ ok (from, replace from (close + 1) part s)
    ]
  ]

abbrev pub starter : ℕ → Bytes
starter marker = marker ∷ b'{' ∷ []

-- The `while`, that searches for the next marker at `base`.
unfoldable pub expand_loop :
    ℕ → ℕ → (Bytes → Option Bytes) → ℕ → Bytes → Option (Result Error Bytes)
unfolding expand_at find_sub
expand_loop zero marker expander base s = none
expand_loop (suc fuel) marker expander base s = elim (find_at (starter marker) base s) [
  | none ↦ some (ok s)
  | some from ↦ elim (find_at (codes "}") (from + 3) s) [
    | none ↦ some (err invalid_use)
    | some close ↦ elim (expand_at expander from close s) [
      | err e ↦ some (err e)
      | ok next ↦ expand_loop fuel marker expander next.0 next.1
    ]
  ]
]

-- `expand`, on fuel for the markers of the text.
unfoldable pub expand : ℕ → (Bytes → Option Bytes) → Bytes → Option (Result Error Bytes)
unfolding expand_loop
expand marker expander s = expand_loop (suc (count marker s)) marker expander 0 s
