-- ===== src/Schedule/Delay.antt =====
-- How long the controller waits for its next round.
use libudjat.Base.{
  ℕ, ◌+◌, ◌-◌, ◌*◌, ◌^◌, ◌≤◌, ◌<◌, ◌≡◌, sym, subst, ◌⊎◌, inl, inr, true, List, [], ◌∷◌, arith,
  lt→ltb, Among, all,
}
use libudjat.Schedule.{visit, visit_all, interval, update_agents, Agents, Round}

-- The update of an agent is not scheduled, or not before the soonest time that the round has found.
abbrev pub Scheduled : ℕ → Round → Type 0
Scheduled x r =
    (r.agents.next x ≡ 0) ⊎ (r.agents.forwarded x ≡ true) ⊎ (r.soonest ≤ r.agents.next x)

visit-later : (now clock x : ℕ) (r : Round) → now < r.soonest → now < (visit now clock x r).soonest
unfolding visit
visit-later now clock x r h = ground arith

visit-le : (now clock x : ℕ) (r : Round) → (visit now clock x r).soonest ≤ r.soonest
unfolding visit
visit-le now clock x r = ground arith

visit-Scheduled_self : (now clock x : ℕ) (r : Round) → Scheduled x (visit now clock x r)
unfolding visit
visit-Scheduled_self now clock x r = ground arith

visit-Scheduled_other :
    (now clock x y : ℕ) (r : Round) → Scheduled y r → Scheduled y (visit now clock x r)
unfolding visit
visit-Scheduled_other now clock x y r h = ground arith

visit_all-later :
    (now : ℕ) (clock : ℕ → ℕ) (xs : List ℕ) (r : Round)
    → now < r.soonest
    → (now < (visit_all now clock xs r).soonest) × ((visit_all now clock xs r).soonest ≤ r.soonest)
unfolding visit_all
visit_all-later now clock [] r h = (h, omega arith)
visit_all-later now clock (x ∷ xs) r h =
    let (later, le) =
      visit_all-later now clock xs (visit now (clock x) x r) (visit-later now (clock x) x r h) in
    (later, omega (arith, le, visit-le now (clock x) x r))

visit_all-Scheduled :
    (now : ℕ) (clock : ℕ → ℕ) (xs : List ℕ) (r : Round) (y : ℕ)
    → Among y xs ⊎ Scheduled y r
    → Scheduled y (visit_all now clock xs r)
unfolding visit_all
visit_all-Scheduled now clock [] r y (inl m) = absurd m
visit_all-Scheduled now clock [] r y (inr h) = h
visit_all-Scheduled now clock (x ∷ xs) r y (inl (inl e)) =
    visit_all-Scheduled now clock xs (visit now (clock x) x r) y (
      inr (
        subst (λ z. Scheduled z (visit now (clock x) x r)) (sym e)
          (visit-Scheduled_self now (clock x) x r)))
visit_all-Scheduled now clock (x ∷ xs) r y (inl (inr m)) =
    visit_all-Scheduled now clock xs (visit now (clock x) x r) y (inl m)
visit_all-Scheduled now clock (x ∷ xs) r y (inr h) =
    visit_all-Scheduled now clock xs (visit now (clock x) x r) y
      (inr (visit-Scheduled_other now (clock x) x y r h))

-- With a positive interval for the least update, that is no longer than 2 ^ 64 milliseconds, the
-- controller waits for some time, and for this interval at most, and no agent that was visited and
-- has a time for its update is due before the wait ends, unless it has a forwarded state.
pub update_agents-bound :
    (now min_update : ℕ) (clock : ℕ → ℕ) (visited : List ℕ) (agents : Agents)
    → 0 < min_update
    → min_update * 1000 < 2 ^ 64
    → let (wait, tasks, after) = update_agents now min_update clock visited agents in
      (0 < wait)
      × (wait ≤ min_update * 1000)
      × ((x : ℕ)
          → Among x visited
          → (after.next x ≡ 0)
            ⊎ (after.forwarded x ≡ true)
            ⊎ (now * 1000 + wait ≤ after.next x * 1000))
unfolding update_agents
update_agents-bound now min_update clock visited agents h k =
    finish (visit_all now clock visited from) (visit_all-later now clock visited from (omega arith))
      (λ x m. visit_all-Scheduled now clock visited from x (inl m))
  where
    from : Round
    from = record { soonest = now + min_update; update_list = []; agents = agents }

    finish :
        (r : Round)
        → (now < r.soonest) × (r.soonest ≤ now + min_update)
        → ((x : ℕ) → Among x visited → Scheduled x r)
        → (0 < interval now r.soonest)
          × (interval now r.soonest ≤ min_update * 1000)
          × ((x : ℕ)
              → Among x visited
              → (r.agents.next x ≡ 0)
                ⊎ (r.agents.forwarded x ≡ true)
                ⊎ (now * 1000 + interval now r.soonest ≤ r.agents.next x * 1000))
    finish r (later, le) all =
        (rw exact (omega arith), rw exact (omega arith), λ x m. rw exact (late x (all x m)))
      where
        exact : interval now r.soonest ≡ (r.soonest - now) * 1000
        exact = rw (lt→ltb now r.soonest later) (omega arith)

        late :
            (x : ℕ)
            → Scheduled x r
            → (r.agents.next x ≡ 0)
              ⊎ (r.agents.forwarded x ≡ true)
              ⊎ (now * 1000 + (r.soonest - now) * 1000 ≤ r.agents.next x * 1000)
        late x (inl e) = inl e
        late x (inr (inl e)) = inr (inl e)
        late x (inr (inr e)) = inr (inr (omega arith))
