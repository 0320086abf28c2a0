-- ===== src/ThreadPool/Invariant.antt =====
-- The counters of the pool, in every reachable state.
use libudjat.Base.{
  ℕ, ◌+◌, ◌≤◌, ◌<◌, ◌≡◌, refl, ap, ◌⊎◌, List, [], ◌∷◌, ◌++◌, append_assoc, arith, length,
  length-append, ok,
}
use libudjat.ThreadPool.{
  push, inner_round, new_pool, Pool, Step, Reach, pushes, begins, tests, rounds, ends, parks, wakes,
  times_out, leaves, stops, here, next,
}

pub record Inv (p : Pool) : Type 0 where
  pub active_counts :
      p.active ≡ p.testing + p.draining + length p.running + p.parking + p.sleeping + p.leaving
  pub waiting_counts : p.waiting ≡ p.sleeping
  pub queued : p.popped ++ p.tasks ≡ p.pushed
  pub bounded : (p.max_tasks ≡ 0) ⊎ (length p.tasks ≤ p.max_tasks)

push-Inv : (task n : ℕ) {p q : Pool} → push task p ≡ ok (q, n) → Inv p → Inv q
unfolding push
push-Inv task n {p} {q} e v =
    ground (arith, length-append p.tasks (task ∷ []), append_assoc p.popped p.tasks (task ∷ []))

inner_round-Inv :
    (p : Pool) (xs : List ℕ) → p.tasks ≡ xs → 0 < p.draining → Inv p → Inv (inner_round p)
unfolding inner_round
inner_round-Inv p [] e h v = ground (arith)
inner_round-Inv p (task ∷ rest) e h v = ground (arith, append_assoc p.popped (task ∷ []) rest)

-- A step of any thread keeps the counts right, the tasks in order and the queue within its limit.
pub Step-Inv : {p q : Pool} → Step p q → Inv p → Inv q
Step-Inv (pushes task n e) v = push-Inv task n e v
Step-Inv (begins h) v = ground arith
Step-Inv (tests h) v = ground arith
Step-Inv (rounds {p} h) v = inner_round-Inv p p.tasks refl h v
Step-Inv (ends task rest {p} e) v = ground (arith, ap length e)
Step-Inv (parks h) v = ground arith
Step-Inv (wakes h) v = ground arith
Step-Inv (times_out h) v = ground arith
Step-Inv (leaves h) v = ground arith
Step-Inv stops v = ground arith

new_pool-Inv : (threads limit : ℕ) → Inv (new_pool threads limit)
new_pool-Inv threads limit = ground arith

Reach-Inv : {p q : Pool} → Inv p → Reach p q → Inv q
Reach-Inv v here = v
Reach-Inv v (next r s) = Step-Inv s (Reach-Inv v r)

-- In every state of a pool, `active` counts the workers that have begun and not ended, and `waiting`
-- those that sleep; the tasks given out and those queued are the tasks pushed, in order; and the
-- queue is never longer than its limit, if it has one.
pub Reach-counts :
    (max_threads max_tasks : ℕ) {p : Pool} → Reach (new_pool max_threads max_tasks) p → Inv p
Reach-counts max_threads max_tasks r = Reach-Inv (new_pool-Inv max_threads max_tasks) r
