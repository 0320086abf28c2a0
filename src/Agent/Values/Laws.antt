-- ===== src/Agent/Values/Laws.antt =====
-- Which state an agent computes, and which values it takes.
use libudjat.Base.{
  ℕ, ◌≤◌, ◌≡◌, refl, ap, ◌⊎◌, inl, inr, Bool, true, false, not, List, [], ◌∷◌, ◌++◌, arith,
  if◌then◌else◌, Bytes, All, bytes_eq, IsText, c_str-IsText, bytes_eq_sound,
}
use libudjat.Agent.Values.{compare_range, compute_number, assign, RangeState}

-- The states before the first one that holds the value, and those behind it.
abbrev pub IsFirst : ℕ → ℕ → List RangeState → Type 0
IsFirst value chosen ss =
    (before : List RangeState) × (s : RangeState) × (after : List RangeState) × (ss
      ≡ before ++ (s ∷ after))
    × All (λ t. compare_range t value ≡ false) before
    × (s.from ≤ value)
    × (value ≤ s.to)
    × (chosen ≡ s.state)

-- The state of a number is that of the first range that holds it, and the default if no range does.
pub compute_number-IsFirst :
    (value by_default : ℕ) (ss : List RangeState)
    → IsFirst value (compute_number value by_default ss) ss
      ⊎ (All (λ t. compare_range t value ≡ false) ss
          × (compute_number value by_default ss ≡ by_default))
compute_number-IsFirst value by_default [] = inr (tt, refl)
compute_number-IsFirst value by_default (s ∷ ss) =
    by_test (compare_range s value) refl (compute_number-IsFirst value by_default ss)
  where
    by_test :
        (b : Bool)
        → compare_range s value ≡ b
        → IsFirst value (compute_number value by_default ss) ss
          ⊎ (All (λ t. compare_range t value ≡ false) ss
              × (compute_number value by_default ss ≡ by_default))
        → IsFirst value (if b then s.state else compute_number value by_default ss) (s ∷ ss)
          ⊎ (All (λ t. compare_range t value ≡ false) (s ∷ ss)
              × ((if b then s.state else compute_number value by_default ss) ≡ by_default))
    by_test true e ih = inl ([], s, ss, refl, tt, lower e, upper e, refl)
      where
        lower : compare_range s value ≡ true → s.from ≤ value
        lower e = ground arith

        upper : compare_range s value ≡ true → value ≤ s.to
        upper e = ground arith
    by_test false e (inl (before, t, after, split, none_of, lo, hi, same)) =
        inl (s ∷ before, t, after, ap (◌∷◌ s) split, (e, none_of), lo, hi, same)
    by_test false e (inr (none_of, same)) = inr ((e, none_of), same)

-- A text agent never takes a text in by `assign`: one that is not its own is dropped, and its own
-- is told as a change.
pub assign_keeps :
    (value old : Bytes)
    → IsText old
    → ((assign value old).0 ≡ bytes_eq value old) × ((assign value old).1 ≡ old)
unfolding assign
assign_keeps value old h = rw (c_str-IsText old h) (by_test (bytes_eq value old) refl)
  where
    after : Bool → Bool × Bytes
    after b = if not b then (false, old) else (true, value)

    by_test : (b : Bool) → bytes_eq value old ≡ b → ((after b).0 ≡ b) × ((after b).1 ≡ old)
    by_test false e = (refl, refl)
    by_test true e = (refl, bytes_eq_sound value old e)
