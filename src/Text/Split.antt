-- ===== src/Text/Split.antt =====
-- string.cc: `split` and `for_each`, which cut a text at each delimiter. The loops run on fuel;
-- the length of the text, and one more, is enough for any delimiter that is not empty.
pub mod Loop
pub mod RoundTrip
pub mod ForEach
use mathlib.Core.Option
use libudjat.Base.{
  ℕ, zero, suc, ◌+◌, ◌-◌, Bool, true, false, ◌&&◌, Option, none, some, List, [], ◌∷◌, ◌++◌, ltb,
  leb, if◌then◌else◌, Bytes, length, take, drop, c_str, n_eq,
}
use libudjat.Text.Strip.{chug, strip}

-- `strstr`: how far into the text the delimiter first stands.
unfoldable pub find_sub : Bytes → Bytes → Option ℕ
unfolding n_eq
find_sub delim [] = if n_eq (length delim) [] delim then some 0 else none
find_sub delim (c ∷ cs) =
    let rest = Option.map suc (find_sub delim cs) in
    if n_eq (length delim) (c ∷ cs) delim then some 0 else rest

-- `max > 0 && strings.size() >= max`
abbrev pub is_full : ℕ → List Bytes → Bool
is_full max strings = ltb 0 max && leb max (length strings)

-- The `while(ptr && *ptr)` of `split`; `none` is a run out of fuel.
unfoldable pub split_loop : ℕ → Bytes → ℕ → List Bytes → Bytes → Option (List Bytes)
split_loop zero delim max strings ptr = none
split_loop (suc fuel) delim max strings [] = some strings
split_loop (suc fuel) delim max strings (c ∷ cs) = elim (find_sub delim (c ∷ cs)) [
  | none ↦ some (strings ++ strip (c ∷ cs) ∷ [])
  | some n ↦ elim (is_full max strings) [
    | true ↦ some (strings ++ strip (c ∷ cs) ∷ [])
    | false ↦
        split_loop fuel delim max (strings ++ strip (take n (c ∷ cs)) ∷ [])
          (chug (chug (drop (n + length delim) (c ∷ cs))))
  ]
]

-- `split` works on `c_str()`. `max` counts down by one first; a negative `max` does what 0 does.
unfoldable pub split : Bytes → ℕ → Bytes → Option (List Bytes)
unfolding split_loop find_sub strip
split delim max s =
    split_loop (suc (length (c_str s))) delim (if ltb 0 max then max - 1 else max) [] (c_str s)

-- The `while(ptr && *ptr)` of `for_each`, with the values that `func` was called on so far. The
-- end of a value is found from `next`, which stands behind the delimiter and its blanks by then.
unfoldable pub for_each_loop :
    ℕ → Bytes → (Bytes → Bool) → List Bytes → Bytes → Option (Bool × List Bytes)
for_each_loop zero delim func seen ptr = none
for_each_loop (suc fuel) delim func seen [] = some (false, seen)
for_each_loop (suc fuel) delim func seen (c ∷ cs) = elim (find_sub delim (c ∷ cs)) [
  | none ↦ some (func (strip (c ∷ cs)), seen ++ strip (c ∷ cs) ∷ [])
  | some n ↦
      let next = chug (drop (n + length delim) (c ∷ cs)) in
      let value = strip (take (length (c ∷ cs) - length next - 1) (c ∷ cs)) in
      elim (func value) [
        | true ↦ some (true, seen ++ value ∷ [])
        | false ↦ for_each_loop fuel delim func (seen ++ value ∷ []) (chug next)
      ]
]

unfoldable pub for_each : Bytes → (Bytes → Bool) → Bytes → Option (Bool × List Bytes)
unfolding for_each_loop find_sub strip
for_each delim func s = for_each_loop (suc (length (c_str s))) delim func [] (c_str s)
