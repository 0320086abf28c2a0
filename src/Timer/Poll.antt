-- ===== src/Timer/Poll.antt =====
-- How long the loop may wait.
use libudjat.Base.{
  ℕ, ◌+◌, ◌-◌, ◌%◌, ◌^◌, ◌≤◌, ◌<◌, ◌≡◌, sym, subst, ◌≢◌, ◌⊎◌, inl, inr, Bool, List, [], ◌∷◌, arith,
  ◌==◌, if◌then◌else◌, lt→ltb, Among,
}
use libudjat.Timer.{
  activate, min, expired, next_of, run_expired, wait_of, compute_poll_timeout, Loop,
}
use libudjat.Timer.Next.{next_of_le, next_of_later, next_of_bound}
use libudjat.Timer.Activate.{Activated, activate-Activated}

-- Times stay below 2 ^ 64, the clock does not go back, and there is a wait.
pub record IsSound (now : ℕ) (maxwait : ℕ) (clock : ℕ → ℕ) (s : Loop) : Type 0 where
  pub waits : 0 < maxwait
  pub wait_fits : now + maxwait < 2 ^ 64
  pub later : (x : ℕ) → now ≤ clock x
  pub times_fit : (x : ℕ) → clock x + s.interval x < 2 ^ 64

-- No timer of the list is due before `next`, but those of `pending`.
abbrev NotBefore : ℕ → List ℕ → Loop → Type 0
NotBefore next pending s =
    (x : ℕ) → Among x s.enabled → Among x pending ⊎ (next ≤ s.activation_time x)

-- What the second loop leaves: the next time is later than now, and no enabled timer is due before.
abbrev Done : ℕ → ℕ → ℕ × Loop → Type 0
Done now next (time, after) =
    (now < time)
    × (time ≤ next)
    × ((y : ℕ) → Among y after.enabled → time ≤ after.activation_time y)

abbrev Fits : (ℕ → ℕ) → Loop → Type 0
Fits clock s = (x : ℕ) → clock x + s.interval x < 2 ^ 64

le_trans : {a b c : ℕ} → a ≤ b → b ≤ c → a ≤ c
le_trans h k = omega arith

run_expired-Done :
    (now : ℕ) (clock : ℕ → ℕ) (throws : ℕ → Bool) (xs : List ℕ) (next : ℕ) (s : Loop)
    → ((x : ℕ) → now ≤ clock x)
    → Fits clock s
    → now < next
    → NotBefore next xs s
    → Done now next (run_expired clock throws xs next s)
unfolding run_expired
run_expired-Done now clock throws [] next s later fits above bound =
    (above, omega arith, λ y m. none_pending (bound y m))
  where
    none_pending : {y : ℕ} → ⊥ ⊎ (next ≤ s.activation_time y) → next ≤ s.activation_time y
    none_pending (inl e) = absurd e
    none_pending (inr h) = h
run_expired-Done now clock throws (x ∷ xs) next s later fits above bound =
    step (activate (clock x) (throws x) x s)
      (activate-Activated now (clock x) (throws x) x s (later x) (fits x))
      (λ next2 after. run_expired-Done now clock throws xs next2 after later)
  where
    lowered : ℕ → ℕ
    lowered n = if n == 0 then next else min next n

    lowered_later : (n : ℕ) → (n ≡ 0) ⊎ (now < n) → now < lowered n
    lowered_later n h = ground arith

    lowered_le : (n : ℕ) → lowered n ≤ next
    lowered_le n = ground arith

    lowered_bound : (n a : ℕ) → now < n → n ≤ a → lowered n ≤ a
    lowered_bound n a h k = ground arith

    step :
        (r : ℕ × Loop)
        → Activated now x s r
        → ((next2 : ℕ) (after : Loop)
            → Fits clock after
            → now < next2
            → NotBefore next2 xs after
            → Done now next2 (run_expired clock throws xs next2 after))
        → Done now next (run_expired clock throws xs (lowered r.0) r.1)
    step (n, after) (due, same, stays) ih = widen (
        ih (lowered n) after (λ y. subst (λ i. clock y + i < 2 ^ 64) (sym (same y)) (fits y))
          (lowered_later n due) (λ y m. still y (stays y m)))
      where
        widen :
            Done now (lowered n) (run_expired clock throws xs (lowered n) after)
            → Done now next (run_expired clock throws xs (lowered n) after)
        widen (a, b, c) = (a, le_trans b (lowered_le n), c)

        pending_or :
            (y : ℕ)
            → y ≢ x
            → after.activation_time y ≡ s.activation_time y
            → Among y (x ∷ xs) ⊎ (next ≤ s.activation_time y)
            → Among y xs ⊎ (lowered n ≤ after.activation_time y)
        pending_or y ne e (inl (inl k)) = absurd (ne k)
        pending_or y ne e (inl (inr m)) = inl m
        pending_or y ne e (inr h) =
            inr (subst (λ z. lowered n ≤ z) (sym e) (le_trans (lowered_le n) h))

        still :
            (y : ℕ)
            → Among y s.enabled
              × (((y ≢ x) × (after.activation_time y ≡ s.activation_time y))
                  ⊎ ((now < n) × (n ≤ after.activation_time y)))
            → Among y xs ⊎ (lowered n ≤ after.activation_time y)
        still y (m, inl (ne, e)) = pending_or y ne e (bound y m)
        still y (m, inr (h, k)) = inr (lowered_bound n (after.activation_time y) h k)

wait_is_later :
    (now maxwait : ℕ) → 0 < maxwait → now + maxwait < 2 ^ 64 → now < (now + maxwait) % 2 ^ 64
wait_is_later now maxwait h k = omega arith

-- If times stay below 2 ^ 64, the clock does not go back and the longest wait is positive, then
-- the loop waits for some time, for the longest wait at most, and no timer that is still enabled
-- is due before the wait ends.
pub compute_poll_timeout-bound :
    (now maxwait : ℕ) (clock : ℕ → ℕ) (throws : ℕ → Bool) (s : Loop)
    → IsSound now maxwait clock s
    → let (wait, after) = compute_poll_timeout now maxwait clock throws s in
      (0 < wait)
      × (wait ≤ maxwait)
      × ((y : ℕ) → Among y after.enabled → now + wait ≤ after.activation_time y)
unfolding compute_poll_timeout
compute_poll_timeout-bound now maxwait clock throws s sound =
    finish (run_expired clock throws (expired now s.activation_time s.enabled) start s) (
      run_expired-Done now clock throws (expired now s.activation_time s.enabled) start s
        sound.later sound.times_fit (next_of_later now s.activation_time _ s.enabled first)
        (next_of_bound now s.activation_time _ s.enabled))
  where
    first : now < (now + maxwait) % 2 ^ 64
    first = wait_is_later now maxwait sound.waits sound.wait_fits

    start : ℕ
    start = next_of now s.activation_time ((now + maxwait) % 2 ^ 64) s.enabled

    start_le : start ≤ now + maxwait
    start_le =
        le_trans (next_of_le now s.activation_time _ s.enabled) (omega (arith, sound.wait_fits))

    finish :
        (r : ℕ × Loop)
        → Done now start r
        → (0 < wait_of now maxwait r.0)
          × (wait_of now maxwait r.0 ≤ maxwait)
          × ((y : ℕ) → Among y r.1.enabled → now + wait_of now maxwait r.0 ≤ r.1.activation_time y)
    finish (time, after) (a, b, c) =
        rw (lt→ltb now time a) (omega arith, omega (arith, start_le), λ y m. wait_le (c y m))
      where
        wait_le : {t : ℕ} → time ≤ t → now + (time - now) ≤ t
        wait_le h = omega arith
