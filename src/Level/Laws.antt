-- ===== src/Level/Laws.antt =====
-- The name of a level is read as the level, without regard to case.
use libudjat.Base.{
  ℕ, suc, ◌+◌, ◌-◌, ◌≤◌, ◌<◌, ◌≡◌, refl, ap, subst, ◌∙◌, Bool, true, false, some, List, [], ◌∷◌,
  arith, ltb, if◌then◌else◌, Bytes, length, case_eq,
}
use libudjat.Level.{level_names, level_loop, level_factory, name_at, level_text}

-- A level of the names, counted from `ix`, whose name is `name` but for case.
abbrev pub IsNamed : ℕ → Bytes → List Bytes → ℕ → Type 0
IsNamed ix name xs n =
    (s : Bytes) × (ix ≤ n)
    × (n < ix + length xs)
    × (name_at xs (n - ix) ≡ some s)
    × (case_eq name s ≡ true)

level_loop-IsNamed :
    (ix : ℕ) (name : Bytes) (xs : List Bytes) (n : ℕ)
    → level_loop ix name xs ≡ some n
    → IsNamed ix name xs n
unfolding level_loop
level_loop-IsNamed ix name [] n h = cc
level_loop-IsNamed ix name (x ∷ xs) n h =
    by_test (case_eq name x) refl h (level_loop-IsNamed (ix + 1) name xs n)
  where
    same_level : some ix ≡ some n → ix ≡ n
    same_level h = cc

    self : (k : ℕ) → k - k ≡ 0
    self k = omega arith

    next : ix + 1 ≤ n → n - ix ≡ suc (n - (ix + 1))
    next l = omega (arith, l)

    further : IsNamed (ix + 1) name xs n → IsNamed ix name (x ∷ xs) n
    further (s, lo, hi, found, e) =
        (s, omega (arith, lo), omega (arith, hi), ap (name_at (x ∷ xs)) (next lo) ∙ found, e)

    by_test :
        (b : Bool)
        → case_eq name x ≡ b
        → (if b then some ix else level_loop (ix + 1) name xs) ≡ some n
        → (level_loop (ix + 1) name xs ≡ some n → IsNamed (ix + 1) name xs n)
        → IsNamed ix name (x ∷ xs) n
    by_test true e h ih =
        subst (IsNamed ix name (x ∷ xs)) (same_level h)
          (x, omega arith, omega arith, ap (name_at (x ∷ xs)) (self ix), e)
    by_test false e h ih = further (ih h)

-- A name that is read as a level is the name of that level, but for case.
pub level_text-level_factory :
    (name : Bytes) (n : ℕ)
    → level_factory name ≡ some n
    → (s : Bytes) × (level_text n ≡ some s) × (case_eq name s ≡ true)
unfolding level_factory level_text
level_text-level_factory name n h =
    let (s, lo, hi, found, e) = level_loop-IsNamed 0 name level_names n h in
    (s, rw (small n hi) (ap (name_at level_names) (same n) ∙ found), e)
  where
    same : (n : ℕ) → n ≡ n - 0
    same n = omega arith

    small : (n : ℕ) → n < 0 + length level_names → ltb (length level_names) n ≡ false
    small n l = ground (arith, l)
