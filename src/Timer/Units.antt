-- ===== src/Timer/Units.antt =====
-- timer.cc: the interval from an attribute, with its unit, and its description.
pub mod Laws
use libudjat.Base.{
  ℕ, ◌-◌, ◌*◌, ◌/◌, ◌%◌, ◌^◌, Bool, false, Option, none, some, List, [], ◌∷◌, ltb, ◌==◌,
  if◌then◌else◌, Bytes, codes, drop, case_eq, ◌>>=◌, Result, err, ok,
}
use libudjat.Timer.{set, Loop, Error, invalid_unit}
use libudjat.Text.Strip.{chomp, chug}
use libudjat.Text.Units.{scan_digits}

-- `atol` of a text that begins with its digits: the value stops at the largest long.
unfoldable pub atol : Bytes → ℕ
unfolding scan_digits
atol s = if ltb (2 ^ 63 - 1) (scan_digits 0 0 s).0 then 2 ^ 63 - 1 else (scan_digits 0 0 s).0

abbrev pub units : List (Bytes × ℕ)
units = (codes "ms", 1) ∷ (codes "s", 1000) ∷ (codes "m", 60000) ∷ (codes "h", 3600000) ∷ []

-- The factor of a unit. The text is no digit first: `atol` is 0, or stops before it.
unfoldable pub factor_of : List (Bytes × ℕ) → Bytes → Option ℕ
unfolding case_eq
factor_of [] name = none
factor_of ((unit, factor) ∷ rest) name =
    let found = factor_of rest name in if case_eq name unit then some factor else found

-- The interval from what follows the digits: in seconds, if there is no unit.
unfoldable pub scaled : Bytes → ℕ → Result Error ℕ
unfolding factor_of chug chomp
scaled [] value = ok (value * 1000 % 2 ^ 64)
scaled (c ∷ cs) value = elim (factor_of units (chomp (chug (c ∷ cs)))) [
  | none ↦ err invalid_unit
  | some factor ↦ ok (value * factor % 2 ^ 64)
]

-- The interval that an attribute gives.
unfoldable pub interval_of : Bytes → Result Error ℕ
unfolding atol scaled
interval_of attr = scaled (drop (scan_digits 0 0 attr).1 attr) (atol attr)

-- `set` with an attribute; no attribute is the empty text.
unfoldable pub set_text : ℕ → ℕ → Bytes → Loop → Result Error (Bool × Loop)
unfolding interval_of set
set_text now timer [] s = ok (false, s)
set_text now timer (c ∷ cs) s = do
  milliseconds ← interval_of (c ∷ cs)
  ok (set now timer milliseconds s)

-- The texts of `to_string`, which are translated, with their numbers.
pub data Description : Type 0 where
  nothing one_second one_hour one_minute : Description
  hours minutes seconds milliseconds : ℕ → Description

unfoldable pub to_string : ℕ → Description
to_string interval =
    if interval == 0
    then nothing
    else if interval % 1000 == 0
    then (if interval / 1000 == 1
        then one_second
        else if interval / 1000 % 3600 == 0
        then if interval / 1000 / 3600 == 1 then one_hour else hours (interval / 1000 / 3600)
        else if interval / 1000 % 60 == 0
        then if interval / 1000 / 60 == 1 then one_minute else minutes (interval / 1000 / 60)
        else seconds (interval / 1000))
    else milliseconds interval
