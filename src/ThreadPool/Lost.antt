-- ===== src/ThreadPool/Lost.antt =====
-- How tasks are left behind. `push` starts a thread while `active` is below the limit, and
-- `active` only grows when that thread runs; workers above the limit leave without a look at the
-- queue, all of them if they began before one of them made its test.
use libudjat.Base.{
  ℕ, zero, suc, ◌+◌, ◌<◌, ◌≡◌, refl, subst, List, [], ◌∷◌, ◌++◌, append-nil, append_assoc, arith,
  length, ok,
}
use libudjat.ThreadPool.{
  push, new_pool, Pool, Step, Reach, pushes, begins, tests, leaves, here, next,
}

Reach-trans : {p q r : Pool} → Reach p q → Reach q r → Reach p r
Reach-trans a here = a
Reach-trans a (next b s) = next (Reach-trans a b) s

Reach-Step : {p q r s : Pool} → Step p q → q ≡ r → Reach r s → Reach p s
Reach-Step {p} {q} {r} {s} st e rest = Reach-trans (next here (subst (Step p) e st)) rest

-- A pool in which no worker has looked at the queue.
abbrev stage : ℕ → List ℕ → ℕ → ℕ → ℕ → ℕ → Pool
stage n tasks starting active testing leaving = record {
  max_threads = n;
  max_tasks = 0;
  tasks = tasks;
  active = active;
  waiting = 0;
  starting = starting;
  testing = testing;
  draining = 0;
  running = [];
  parking = 0;
  sleeping = 0;
  leaving = leaving;
  pushed = tasks;
  popped = [];
}

push-stage :
    (n : ℕ) (ts : List ℕ) (k t : ℕ)
    → 0 < n
    → push t (stage n ts k 0 0 0) ≡ ok (stage n (ts ++ t ∷ []) (k + 1) 0 0 0, length (ts ++ t ∷ []))
unfolding push
push-stage n ts k t h = ground arith

all_push :
    (n : ℕ) (us ts : List ℕ) (k m : ℕ)
    → 0 < n
    → k + length us ≡ m
    → Reach (stage n ts k 0 0 0) (stage n (ts ++ us) m 0 0 0)
all_push n [] ts k m h e = let f : k ≡ m = omega arith in rw (append-nil, f) here
all_push n (u ∷ us) ts k m h e = rw (← append_assoc ts (u ∷ []) us) (
    Reach-Step (pushes u (length (ts ++ u ∷ [])) (push-stage n ts k u h)) refl
      (all_push n us (ts ++ u ∷ []) (k + 1) m h (omega arith)))

module _ (n : ℕ) (ts : List ℕ) where
  all_begin : (k a b : ℕ) → a + k ≡ b → Reach (stage n ts k a a 0) (stage n ts 0 b b 0)
  all_begin zero a b e = let f : a ≡ b = omega arith in rw f here
  all_begin (suc k) a b e =
      Reach-Step (begins {p = stage n ts (suc k) a a 0} (omega arith)) (ground arith)
        (all_begin k (a + 1) b (omega arith))

  all_test : (k l m a : ℕ) → n < a → l + k ≡ m → Reach (stage n ts 0 a k l) (stage n ts 0 a 0 m)
  all_test zero l m a h e = let f : l ≡ m = omega arith in rw f here
  all_test (suc k) l m a h e =
      Reach-Step (tests {p = stage n ts 0 a (suc k) l} (omega arith)) (ground arith)
        (all_test k (l + 1) m a h (omega arith))

  all_leave : (k : ℕ) → Reach (stage n ts 0 k 0 k) (stage n ts 0 0 0 0)
  all_leave zero = here
  all_leave (suc k) =
      Reach-Step (leaves {p = stage n ts 0 (suc k) 0 (suc k)} (omega arith)) (ground arith)
        (all_leave k)

-- No worker of the pool is left, nor one on its way.
abbrev pub HasNoWorker : Pool → Type 0
HasNoWorker p = (p.starting ≡ 0) × (p.active ≡ 0) × (p.running ≡ [])

-- With any limit of threads but 0, and more tasks pushed than the limit, the pool can come to a
-- state in which all these tasks are queued and there is no worker to run them.
pub tasks_may_be_lost :
    (max_threads : ℕ) (tasks : List ℕ)
    → 0 < max_threads
    → max_threads < length tasks
    → (p : Pool) × Reach (new_pool max_threads 0) p × (p.tasks ≡ tasks) × HasNoWorker p
tasks_may_be_lost n tasks h more =
    let m = length tasks in
    (
      stage n tasks 0 0 0 0,
      Reach-trans (all_push n tasks [] 0 m h (omega arith)) (
          Reach-trans (all_begin n tasks m 0 m (omega arith))
            (Reach-trans (all_test n tasks m 0 m m more (omega arith)) (all_leave n tasks m))),
      refl,
      (refl, refl, refl),
    )
