-- ===== src/Value/Text.antt =====
-- src/library/tools/value/get.cc: what a value is as a text, and what is inside it.
pub mod Digits
use libudjat.Base.{
  ℕ, zero, suc, ◌+◌, ◌-◌, ◌/◌, ◌%◌, ◌^◌, Bool, true, false, none, some, List, [], ◌∷◌, ltb,
  if◌then◌else◌, Bytes, Result, err, ok,
}
use libudjat.Value.{
  lookup, Value, Items, Members, string, undefined, array, object, text, timestamp, signed, boolean,
  unsigned, state, real, fraction, report, no_items, item, no_members, member,
}
use libudjat.Level.{level_text}

-- The texts of times, doubles and fractions, by the streams and `strftime`.
pub record Formats : Type 0 where
  pub time_text : ℕ → Bytes
  pub real_text : ℕ → Bytes
  pub fraction_text : ℕ → Bytes

pub data TextError : Type 0 where
  no_text no_level unexpected_type terminates not_object no_child only_arrays : TextError

-- `std::to_string` of an unsigned number; 20 digits are enough for 64 bits.
unfoldable pub digits : ℕ → ℕ → Bytes → Bytes
digits zero n behind = behind
digits (suc fuel) n behind =
    let rest = digits fuel (n / 10) ((b'0' + n % 10) ∷ behind) in
    if ltb n 10 then (b'0' + n) ∷ behind else rest

unfoldable pub number_text : ℕ → Bytes
unfolding digits
number_text n = digits 20 n []

-- `std::to_string(int)`, from the 32 bits of the int.
unfoldable pub signed_text : ℕ → Bytes
unfolding number_text
signed_text n = if ltb n (2 ^ 31) then number_text n else b'-' ∷ number_text (2 ^ 32 - n)

-- `get(std::string &)`
unfoldable pub get_text : Formats → Value → Result TextError Bytes
unfolding signed_text level_text
get_text f undefined = ok []
get_text f (array xs) = err no_text
get_text f (object ms) = err no_text
get_text f (text t none) = ok []
get_text f (text t (some s)) = ok s
get_text f (timestamp n) = ok (f.time_text n)
get_text f (signed n) = ok (signed_text n)
get_text f (boolean n) = ok (signed_text n)
get_text f (unsigned n) = ok (number_text n)
get_text f (state n) = elim (level_text n) [ none ↦ err no_level | some s ↦ ok s ]
get_text f (real n) = ok (f.real_text n)
get_text f (fraction n) = ok (f.fraction_text n)
get_text f (report n) = err unexpected_type

-- `to_string()` is noexcept: an exception in it ends the program.
unfoldable pub to_text : Formats → Value → Result TextError Bytes
unfolding get_text
to_text f v = elim (get_text f v) [ err e ↦ err terminates | ok s ↦ ok s ]

-- `empty`
abbrev pub is_empty : Value → Bool
is_empty undefined = true
is_empty (array no_items) = true
is_empty (object no_members) = true
is_empty (text string none) = true
is_empty (text string (some [])) = true
is_empty _ = false

-- `size`
abbrev pub count_items : Items → ℕ
count_items no_items = 0
count_items (item v xs) = suc (count_items xs)

abbrev pub count_members : Members → ℕ
count_members no_members = 0
count_members (member k v ms) = suc (count_members ms)

abbrev pub size : Value → ℕ
size undefined = 0
size (array xs) = count_items xs
size (object ms) = count_members ms
size _ = 1

-- What `for_each` comes to, in order.
unfoldable pub indexed : ℕ → Items → List (Bytes × Value)
unfolding number_text
indexed ix no_items = []
indexed ix (item v xs) = (number_text ix, v) ∷ indexed (ix + 1) xs

abbrev pub named : Members → List (Bytes × Value)
named no_members = []
named (member k v ms) = (k, v) ∷ named ms

unfoldable pub children : Value → List (Bytes × Value)
unfolding indexed
children undefined = []
children (array xs) = indexed 0 xs
children (object ms) = named ms
children v = ([], v) ∷ []

-- `operator [](name) const`
unfoldable pub child : Bytes → Value → Result TextError Value
unfolding lookup
child name (object ms) = elim (lookup name ms) [ none ↦ err no_child | some v ↦ ok v ]
child name _ = err not_object
