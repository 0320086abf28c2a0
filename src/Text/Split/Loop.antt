-- ===== src/Text/Split/Loop.antt =====
-- The loops of `split` and `for_each` end, and `split` keeps to its maximum.
use libudjat.Base.{
  ℕ, zero, suc, ◌+◌, ◌-◌, ◌≤◌, ◌<◌, ◌≡◌, refl, inl, inr, Bool, true, false, some, List, [], ◌∷◌,
  ◌++◌, arith, ltb, if◌then◌else◌, lt→ltb, Bool-cases, Option-cases, Bytes, length, take, drop,
  length-append, length-drop, c_str,
}
use libudjat.Text.Strip.{chug, strip}
use libudjat.Text.Split.{find_sub, is_full, split_loop, split, for_each_loop, for_each}

pub length-chug : (s : Bytes) → length (chug s) ≤ length s
unfolding chug
length-chug [] = omega arith
length-chug (c ∷ cs) = ground (arith, length-chug cs)

-- What is left behind a delimiter is shorter than the text.
pub shrinks :
    (n : ℕ) (d : ℕ) (ds : Bytes) (c : ℕ) (cs : Bytes)
    → length (chug (chug (drop (n + length (d ∷ ds)) (c ∷ cs)))) < length (c ∷ cs)
shrinks n d ds c cs =
    let rest = drop (n + length (d ∷ ds)) (c ∷ cs) in
    omega
      (arith, length-chug (chug rest), length-chug rest, length-drop (n + length (d ∷ ds)) (c ∷ cs))

split_loop-total :
    (fuel d : ℕ) (ds : Bytes) (max : ℕ) (strings : List Bytes) (ptr : Bytes)
    → length ptr < fuel
    → (r : List Bytes) × (split_loop fuel (d ∷ ds) max strings ptr ≡ some r)
unfolding split_loop
split_loop-total zero d ds max strings ptr h = absurd (omega arith)
split_loop-total (suc fuel) d ds max strings [] h = (strings, refl)
split_loop-total (suc fuel) d ds max strings (c ∷ cs) h =
    elim (Option-cases (find_sub (d ∷ ds) (c ∷ cs))) [
      | inl e ↦ (strings ++ strip (c ∷ cs) ∷ [], rw (e, split_loop))
      | inr (n, e) ↦ elim (Bool-cases (is_full max strings)) [
        | inl f ↦ (strings ++ strip (c ∷ cs) ∷ [], rw (e, split_loop) (rw f))
        | inr f ↦
            let (r, g) =
              split_loop-total fuel d ds max (strings ++ strip (take n (c ∷ cs)) ∷ [])
                (chug (chug (drop (n + length (d ∷ ds)) (c ∷ cs))))
                (omega (arith, shrinks n d ds c cs)) in
            (r, rw (e, split_loop) (rw f g))
      ]
    ]

for_each_loop-total :
    (fuel d : ℕ) (ds : Bytes) (func : Bytes → Bool) (seen : List Bytes) (ptr : Bytes)
    → length ptr < fuel
    → (r : Bool × List Bytes) × (for_each_loop fuel (d ∷ ds) func seen ptr ≡ some r)
unfolding for_each_loop
for_each_loop-total zero d ds func seen ptr h = absurd (omega arith)
for_each_loop-total (suc fuel) d ds func seen [] h = ((false, seen), refl)
for_each_loop-total (suc fuel) d ds func seen (c ∷ cs) h =
    elim (Option-cases (find_sub (d ∷ ds) (c ∷ cs))) [
      | inl e ↦ ((func (strip (c ∷ cs)), seen ++ strip (c ∷ cs) ∷ []), rw (e, for_each_loop))
      | inr (n, e) ↦
          let next = chug (drop (n + length (d ∷ ds)) (c ∷ cs)) in
          let value = strip (take (length (c ∷ cs) - length next - 1) (c ∷ cs)) in
          elim (Bool-cases (func value)) [
            | inl f ↦ ((true, seen ++ value ∷ []), rw (e, for_each_loop) (rw f))
            | inr f ↦
                let (r, g) =
                  for_each_loop-total fuel d ds func (seen ++ value ∷ []) (chug next)
                    (omega (arith, shrinks n d ds c cs)) in
                (r, rw (e, for_each_loop) (rw f g))
          ]
    ]

-- For a delimiter that is not empty, the loops of `split` and of `for_each` end on every text.
pub split-total :
    (d : ℕ) (ds : Bytes) (max : ℕ) (func : Bytes → Bool) (s : Bytes)
    → ((r : List Bytes) × (split (d ∷ ds) max s ≡ some r))
      × ((r : Bool × List Bytes) × (for_each (d ∷ ds) func s ≡ some r))
unfolding split for_each
split-total d ds max func s = (
  split_loop-total (suc (length (c_str s))) d ds (if ltb 0 max then max - 1 else max) [] (c_str s)
      (omega arith),
  for_each_loop-total (suc (length (c_str s))) d ds func [] (c_str s) (omega arith),
)

split_loop_bound :
    (fuel d : ℕ) (ds : Bytes) (max : ℕ) (strings : List Bytes) (ptr : Bytes) {r : List Bytes}
    → 0 < max
    → length strings ≤ max
    → split_loop fuel (d ∷ ds) max strings ptr ≡ some r
    → length r ≤ max + 1
unfolding split_loop
split_loop_bound zero d ds max strings ptr m k h = cc
split_loop_bound (suc fuel) d ds max strings [] m k h = ground arith
split_loop_bound (suc fuel) d ds max strings (c ∷ cs) m k h =
    elim (Option-cases (find_sub (d ∷ ds) (c ∷ cs))) [
      | inl e ↦ ground (arith, rw (e, split_loop) at h, length-append strings (strip (c ∷ cs) ∷ []))
      | inr (n, e) ↦ elim (Bool-cases (is_full max strings)) [
        | inl f ↦
            ground (
              arith,
              rw f at (rw (e, split_loop) at h),
              length-append strings (strip (c ∷ cs) ∷ []),
            )
        | inr f ↦
            split_loop_bound fuel d ds max (strings ++ strip (take n (c ∷ cs)) ∷ []) _ m
              (ground (arith, length-append strings (strip (take n (c ∷ cs)) ∷ [])))
              (rw f at (rw (e, split_loop) at h))
      ]
    ]

-- With a maximum above 1, `split` gives at most so many values.
pub split_bound :
    (d : ℕ) (ds : Bytes) (max : ℕ) (s : Bytes) {r : List Bytes}
    → 1 < max
    → split (d ∷ ds) max s ≡ some r
    → length r ≤ max
unfolding split
split_bound d ds max s {r} m h = omega (
  arith,
  split_loop_bound (suc (length (c_str s))) d ds (max - 1) [] (c_str s) {r = r} (omega arith)
      (omega arith) (rw (lt→ltb 0 max (omega arith)) at h),
)
