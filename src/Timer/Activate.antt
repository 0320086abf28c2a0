-- ===== src/Timer/Activate.antt =====
-- What an activation does to the times.
use libudjat.Base.{
  ℕ, ◌+◌, ◌%◌, ◌^◌, ◌≤◌, ◌<◌, ◌≡◌, refl, sym, subst, ◌≢◌, ◌⊎◌, inl, inr, Bool, true, false, arith,
  ◌==◌, if◌then◌else◌, ==→eq, ==_ne, Bool-cases, Among,
}
use libudjat.Timer.{put, activate_at, disable, activate, Loop}
use libudjat.Timer.Next.{Among-remove}

-- What `activate` does to the timers that stay enabled: `x` is due at `n`, the others as before.
abbrev pub Activated : ℕ → ℕ → Loop → ℕ × Loop → Type 0
Activated now x s (n, after) =
    ((n ≡ 0) ⊎ (now < n))
    × ((y : ℕ) → after.interval y ≡ s.interval y)
    × ((y : ℕ)
        → Among y after.enabled
        → Among y s.enabled
          × (((y ≢ x) × (after.activation_time y ≡ s.activation_time y))
              ⊎ ((now < n) × (n ≤ after.activation_time y))))

put_same : (f : ℕ → ℕ) (x v y : ℕ) → y ≡ x → put f x v y ≡ v
put_same f x v y e = ground arith

put_other : (f : ℕ → ℕ) (x v y : ℕ) → y ≢ x → put f x v y ≡ f y
put_other f x v y ne = rw (==_ne y x ne) refl

same_or_not : (x y : ℕ) → (y ≡ x) ⊎ (y ≢ x)
same_or_not x y = elim (Bool-cases (y == x)) [
  | inl same ↦ inl (==→eq y x same)
  | inr other ↦ inr (differs other)
]
  where
    differs : (y == x) ≡ false → y ≢ x
    differs other e = ground arith

pub activate-Activated :
    (now clock : ℕ) (throws : Bool) (x : ℕ) (s : Loop)
    → now ≤ clock
    → clock + s.interval x < 2 ^ 64
    → Activated now x s (activate clock throws x s)
unfolding activate disable
activate-Activated now clock throws x s later fits = elim (Bool-cases (s.interval x == 0)) [
  | inl zero_interval ↦
      rw zero_interval
        ((inl refl, (λ y. refl), λ y m. stays s y (Among-remove y x s.enabled m) refl))
  | inr some_interval ↦ rw some_interval (runs throws some_interval)
]
  where
    stays :
        (t : Loop) (y : ℕ)
        → Among y s.enabled × (y ≢ x)
        → t.activation_time y ≡ s.activation_time y
        → Among y s.enabled
          × (((y ≢ x) × (t.activation_time y ≡ s.activation_time y))
              ⊎ ((now < 0) × (0 ≤ t.activation_time y)))
    stays t y (m, ne) e = (m, inl (ne, e))

    runs :
        (b : Bool)
        → (s.interval x == 0) ≡ false
        → Activated now x s (
            if b
            then (0, disable x (activate_at x (clock + s.interval x) s))
            else ((clock + s.interval x) % 2 ^ 64, activate_at x (clock + s.interval x) s))
    runs true h = (inl refl, (λ y. refl), λ y m. others (Among-remove y x s.enabled m))
      where
        others :
            {y : ℕ}
            → Among y s.enabled × (y ≢ x)
            → Among y s.enabled
              × (((y ≢ x)
                    × (put s.activation_time x ((clock + s.interval x) % 2 ^ 64) y
                        ≡ s.activation_time y))
                  ⊎ ((now < 0) × (0 ≤ put s.activation_time x ((clock + s.interval x) % 2 ^ 64) y)))
        others {y} (m, ne) = (m, inl (ne, put_other s.activation_time x _ y ne))
    runs false h = (inr due, (λ y. refl), λ y m. (m, both y (same_or_not x y)))
      where
        due : now < (clock + s.interval x) % 2 ^ 64
        due = ground arith

        both :
            (y : ℕ)
            → (y ≡ x) ⊎ (y ≢ x)
            → ((y ≢ x)
                × (put s.activation_time x ((clock + s.interval x) % 2 ^ 64) y
                    ≡ s.activation_time y))
              ⊎ ((now < (clock + s.interval x) % 2 ^ 64)
                  × ((clock + s.interval x) % 2 ^ 64
                      ≤ put s.activation_time x ((clock + s.interval x) % 2 ^ 64) y))
        both y (inl e) = inr (
          due,
          subst (λ z. (clock + s.interval x) % 2 ^ 64 ≤ z)
              (sym (put_same s.activation_time x _ y e)) (omega arith),
        )
        both y (inr ne) = inl (ne, put_other s.activation_time x _ y ne)
