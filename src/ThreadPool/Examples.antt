-- ===== src/ThreadPool/Examples.antt =====
-- Tests of ThreadPool.
use libudjat.Base.{◌≡◌, refl, [], ◌∷◌, arith, err}
use libudjat.ThreadPool.Invariant.{Step-Inv, Reach-counts, Inv}
use libudjat.ThreadPool.Lost.{HasNoWorker, tasks_may_be_lost}
use libudjat.ThreadPool.{push, begin, new_pool, Pool, Reach, queue_full, pushes, begins, here, next}

push-full : push 3 (record (new_pool 2 1) { tasks = 7 ∷ [] }) ≡ err queue_full
unfolding push
push-full = refl

-- A pool with one task and one worker on its way.
abbrev started : Pool
started = record (new_pool 2 4) { tasks = 7 ∷ []; pushed = 7 ∷ []; starting = 1 }

started_reached : Reach (new_pool 2 4) started
unfolding push
started_reached = next here (pushes 7 1 refl)

Step-Inv_example : Inv (begin started)
Step-Inv_example = Step-Inv (begins {p = started} (omega arith)) (Reach-counts 2 4 started_reached)

tasks_may_be_lost_example :
    (p : Pool) × Reach (new_pool 1 0) p × (p.tasks ≡ 8 ∷ 9 ∷ []) × HasNoWorker p
tasks_may_be_lost_example = tasks_may_be_lost 1 (8 ∷ 9 ∷ []) (omega arith) (omega arith)
