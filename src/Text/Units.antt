-- ===== src/Text/Units.antt =====
-- string.cc: the units of `byte_to_string<unsigned long long>` and `string_to_byte`, and `as_ull`.
-- The decimal that a stream prints for the quotient is not modelled, only the unit chosen.
pub mod Laws
pub mod AsUll
use libudjat.Base.{
  ℕ, zero, suc, ◌+◌, ◌-◌, ◌*◌, ◌%◌, ◌^◌, Bool, true, false, List, [], ◌∷◌, ltb, leb, ◌==◌,
  if◌then◌else◌, Bytes, codes, length, drop, is_digit, case_eq, ◌>>=◌, Result, ok, err,
}
use libudjat.Text.Strip.{chug}

-- `unit_names`
abbrev pub unit_names : List Bytes
unit_names = codes "B" ∷ codes "KB" ∷ codes "MB" ∷ codes "GB" ∷ codes "TB" ∷ []

-- `selected`, and the index of `name`.
pub record Selected : Type 0 where
  pub divisor : ℕ
  pub name : ℕ

-- The `for` of `byte_to_string`, for the rounds left.
unfoldable pub select_loop : ℕ → ℕ → ℕ → ℕ → Selected → Selected
select_loop zero ix value multiplier s = s
select_loop (suc rounds) ix value multiplier s =
    select_loop rounds (ix + 1) value (multiplier * 1024)
      (if leb multiplier value then record { divisor = multiplier; name = ix } else s)

unfoldable pub select_unit : ℕ → Selected
unfolding select_loop
select_unit value = select_loop 4 1 value 1024 (record { divisor = 1; name = 0 })

-- The `for` of `string_to_byte`; the product is an unsigned long long.
unfoldable pub unit_loop : List Bytes → ℕ → ℕ → Bytes → ℕ
unit_loop [] multiplier value str = value
unit_loop (name ∷ names) multiplier value str =
    let rest = unit_loop names (multiplier * 1024) value str in
    if case_eq str name then multiplier * value % 2 ^ 64 else rest

unfoldable pub string_to_byte : ℕ → Bytes → ℕ
unfolding unit_loop case_eq chug
string_to_byte value str = elim (chug str) [
  | [] ↦ value
  | c ∷ cs ↦ unit_loop unit_names 1 value (c ∷ cs)
]

pub data Error : Type 0 where
  invalid_argument out_of_range out_of_bounds : Error

-- The digits at the front of a text: their number, after `acc`, and how many they are.
unfoldable pub scan_digits : ℕ → ℕ → Bytes → ℕ × ℕ
unfolding is_digit
scan_digits acc count [] = (acc, count)
scan_digits acc count (c ∷ cs) =
    let rest = scan_digits (acc * 10 + (c - b'0')) (count + 1) cs in
    if is_digit c then rest else (acc, count)

-- The digits, behind what is skipped, as `std::stoll` reads them: a number, as an unsigned long
-- long, and the characters used.
unfoldable pub checked : Bool → ℕ → ℕ × ℕ → Result Error (ℕ × ℕ)
checked negative skipped (value, count) =
    if count == 0
    then err invalid_argument
    else if ltb (if negative then 2 ^ 63 else 2 ^ 63 - 1) value
    then err out_of_range
    else ok ((if negative then (2 ^ 64 - value) % 2 ^ 64 else value), skipped + count)

unfoldable pub signed : ℕ → Bytes → Result Error (ℕ × ℕ)
signed skipped [] = err invalid_argument
signed skipped (c ∷ cs) =
    if c == b'-'
    then checked true (skipped + 1) (scan_digits 0 0 cs)
    else if c == b'+'
    then checked false (skipped + 1) (scan_digits 0 0 cs)
    else checked false skipped (scan_digits 0 0 (c ∷ cs))

unfoldable pub stoll : Bytes → Result Error (ℕ × ℕ)
stoll s = signed (length s - length (chug s)) (chug s)

-- `as_ull`: `str` is moved by `bytes`, and `string_to_byte` is given `str + bytes`. A pointer
-- behind the end of the text is an error here.
unfoldable pub as_ull : Bytes → Result Error ℕ
as_ull [] = ok 0
as_ull (c ∷ cs) = do
  number ← stoll (c ∷ cs)
  let moved = number.1 + number.1
  if ltb (length (c ∷ cs)) moved
      then err out_of_bounds
      else ok (string_to_byte number.0 (drop moved (c ∷ cs)))
