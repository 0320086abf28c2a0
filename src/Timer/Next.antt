-- ===== src/Timer/Next.antt =====
-- The timers that are not due, and the next time of these.
use libudjat.Base.{
  ℕ, ◌≤◌, ◌<◌, ◌≡◌, sym, subst, ◌≢◌, ◌⊎◌, inl, inr, false, List, [], ◌∷◌, arith, leb, ◌==◌,
  if◌then◌else◌, Bool-cases, Among,
}
use libudjat.Timer.{remove, min, expired, next_of}

pub Among-remove :
    (x timer : ℕ) (xs : List ℕ) → Among x (remove timer xs) → Among x xs × (x ≢ timer)
unfolding remove
Among-remove x timer [] h = absurd h
Among-remove x timer (y ∷ ys) h = elim (Bool-cases (timer == y)) [
  | inl same ↦ keep (
      Among-remove x timer ys
        (subst (λ b. Among x (if b then remove timer ys else y ∷ remove timer ys)) same h))
  | inr other ↦
      here other (subst (λ b. Among x (if b then remove timer ys else y ∷ remove timer ys)) other h)
        (Among-remove x timer ys)
]
  where
    keep : Among x ys × (x ≢ timer) → Among x (y ∷ ys) × (x ≢ timer)
    keep (m, ne) = (inr m, ne)

    differs : (timer == y) ≡ false → x ≡ y → x ≢ timer
    differs other e k = ground arith

    here :
        (timer == y) ≡ false
        → Among x (y ∷ remove timer ys)
        → (Among x (remove timer ys) → Among x ys × (x ≢ timer))
        → Among x (y ∷ ys) × (x ≢ timer)
    here other (inl e) ih = (inl e, differs other e)
    here other (inr m) ih = keep (ih m)

pub next_of_le : (now : ℕ) (time : ℕ → ℕ) (next : ℕ) (xs : List ℕ) → next_of now time next xs ≤ next
unfolding next_of
next_of_le now time next [] = omega arith
next_of_le now time next (x ∷ xs) =
    ground (arith, next_of_le now time (if leb (time x) now then next else min next (time x)) xs)

pub next_of_later :
    (now : ℕ) (time : ℕ → ℕ) (next : ℕ) (xs : List ℕ) → now < next → now < next_of now time next xs
unfolding next_of
next_of_later now time next [] h = h
next_of_later now time next (x ∷ xs) h =
    next_of_later now time (if leb (time x) now then next else min next (time x)) xs (ground arith)

-- A timer is expired, or not due before the next time.
pub next_of_bound :
    (now : ℕ) (time : ℕ → ℕ) (next : ℕ) (xs : List ℕ) (x : ℕ)
    → Among x xs
    → Among x (expired now time xs) ⊎ (next_of now time next xs ≤ time x)
unfolding next_of expired
next_of_bound now time next [] x h = absurd h
next_of_bound now time next (y ∷ ys) x h = elim (Bool-cases (leb (time y) now)) [
  | inl due ↦ rw due (is_due h (next_of_bound now time next ys x))
  | inr later ↦ rw later (is_later h (next_of_bound now time (min next (time y)) ys x))
]
  where
    is_due :
        Among x (y ∷ ys)
        → (Among x ys → Among x (expired now time ys) ⊎ (next_of now time next ys ≤ time x))
        → Among x (y ∷ expired now time ys) ⊎ (next_of now time next ys ≤ time x)
    is_due (inl e) ih = inl (inl e)
    is_due (inr m) ih = elim (ih m) [ inl a ↦ inl (inr a) | inr b ↦ inr b ]

    is_later :
        Among x (y ∷ ys)
        → (Among x ys
            → Among x (expired now time ys) ⊎ (next_of now time (min next (time y)) ys ≤ time x))
        → Among x (expired now time ys) ⊎ (next_of now time (min next (time y)) ys ≤ time x)
    is_later (inl e) ih = inr (
        subst (λ z. next_of now time (min next (time y)) ys ≤ time z) (sym e)
          (ground (arith, next_of_le now time (min next (time y)) ys)))
    is_later (inr m) ih = ih m
