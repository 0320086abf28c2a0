-- ===== src/ThreadPool.antt =====
-- src/library/tools/os/linux/threadpool.cc: `ThreadPool::push`, `ThreadPool::pop` and the loop of
-- `ThreadPool::worker`, with what other threads do between its steps. Workers differ only in where
-- they stand, so a state counts those at each place. Tasks are numbered.
pub mod Invariant
pub mod Lost
mod Examples
use libudjat.Base.{
  ℕ, ◌+◌, ◌-◌, ◌<◌, ◌≡◌, ◌&&◌, Option, none, some, List, [], ◌∷◌, ◌++◌, ltb, leb, if◌then◌else◌,
  length, Result, err, ok,
}

pub record Pool : Type 0 where
  -- `limits.threads`, `limits.tasks`, `tasks`, `threads.active` and `threads.waiting`
  pub max_threads : ℕ
  pub max_tasks : ℕ
  pub tasks : List ℕ
  pub active : ℕ
  pub waiting : ℕ
  -- Workers that are started and have not counted themselves yet.
  pub starting : ℕ
  -- At the test of the outer `while`, and at that of the inner one.
  pub testing : ℕ
  pub draining : ℕ
  -- The tasks whose callback runs.
  pub running : List ℕ
  -- Behind the inner loop, in `wait_for`, and behind the outer loop.
  pub parking : ℕ
  pub sleeping : ℕ
  pub leaving : ℕ
  -- All tasks taken in by `push`, and all given out by `pop`, in order.
  pub pushed : List ℕ
  pub popped : List ℕ

pub data Error : Type 0 where
  queue_full : Error

-- What `push` does behind `tasks.emplace`: a waiting worker is woken, which `wake` below may do at
-- any time, or a thread is started.
abbrev pub enlist : Pool → Pool
enlist p =
    if ltb 0 p.waiting
    then p
    else if ltb p.active p.max_threads
    then record p { starting = p.starting + 1 }
    else p

-- `push`: the new pool, with the number of tasks that is returned.
unfoldable pub push : ℕ → Pool → Result Error (Pool × ℕ)
push task p =
    if ltb 0 p.max_tasks && leb p.max_tasks (length p.tasks)
    then err queue_full
    else ok (
      enlist (record p { tasks = p.tasks ++ task ∷ []; pushed = p.pushed ++ task ∷ [] }),
      length (p.tasks ++ task ∷ []),
    )

-- `pop`: the oldest task, if there is one.
unfoldable pub pop : Pool → Option (ℕ × Pool)
pop p = elim p.tasks [
  | [] ↦ none
  | task ∷ rest ↦ some (task, record p { tasks = rest; popped = p.popped ++ task ∷ [] })
]

-- `pool->threads.active++`
abbrev pub begin : Pool → Pool
begin p = record p { starting = p.starting - 1; active = p.active + 1; testing = p.testing + 1 }

-- The test of the outer `while`.
abbrev pub outer_test : Pool → Pool
outer_test p =
    if leb p.active p.max_threads
    then record p { testing = p.testing - 1; draining = p.draining + 1 }
    else record p { testing = p.testing - 1; leaving = p.leaving + 1 }

-- A worker that leaves the inner loop.
abbrev pub break : Pool → Pool
break p = record p { draining = p.draining - 1; parking = p.parking + 1 }

-- One round of the inner `while`, up to the start of the callback.
unfoldable pub inner_round : Pool → Pool
unfolding pop
inner_round p =
    if ltb 0 p.max_threads
    then elim (pop p) [
      | none ↦ break p
      | some (task, q) ↦ record q { draining = q.draining - 1; running = task ∷ q.running }
    ]
    else break p

-- `pool->threads.waiting++`, and the sleep begins.
abbrev pub park : Pool → Pool
park p = record p { parking = p.parking - 1; waiting = p.waiting + 1; sleeping = p.sleeping + 1 }

-- The end of the sleep, by a notification or for no reason, and by a timeout.
abbrev pub wake : Pool → Pool
wake p = record p { sleeping = p.sleeping - 1; waiting = p.waiting - 1; testing = p.testing + 1 }

abbrev pub time_out : Pool → Pool
time_out p = record p {
  sleeping = p.sleeping - 1;
  waiting = p.waiting - 1;
  leaving = p.leaving + 1;
}

-- `pool->threads.active--`
abbrev pub leave : Pool → Pool
leave p = record p { leaving = p.leaving - 1; active = p.active - 1 }

-- The steps of all threads. A callback ends or throws; `stop` clears the limit of threads.
pub data Step : Pool → Pool → Type 0 where
  pushes : (task n : ℕ) {p q : Pool} → push task p ≡ ok (q, n) → Step p q
  begins : {p : Pool} → 0 < p.starting → Step p (begin p)
  tests : {p : Pool} → 0 < p.testing → Step p (outer_test p)
  rounds : {p : Pool} → 0 < p.draining → Step p (inner_round p)
  ends :
      (task : ℕ) (rest : List ℕ) {p : Pool}
      → p.running ≡ task ∷ rest
      → Step p (record p { running = rest; draining = p.draining + 1 })
  parks : {p : Pool} → 0 < p.parking → Step p (park p)
  wakes : {p : Pool} → 0 < p.sleeping → Step p (wake p)
  times_out : {p : Pool} → 0 < p.sleeping → Step p (time_out p)
  leaves : {p : Pool} → 0 < p.leaving → Step p (leave p)
  stops : {p : Pool} → Step p (record p { max_threads = 0 })

pub data Reach (p : Pool) : Pool → Type 0 where
  here : Reach p p
  next : {q r : Pool} → Reach p q → Step q r → Reach p r

-- A pool as it is constructed, with its limits.
abbrev pub new_pool : ℕ → ℕ → Pool
new_pool max_threads max_tasks = record {
  max_threads = max_threads;
  max_tasks = max_tasks;
  tasks = [];
  active = 0;
  waiting = 0;
  starting = 0;
  testing = 0;
  draining = 0;
  running = [];
  parking = 0;
  sleeping = 0;
  leaving = 0;
  pushed = [];
  popped = [];
}
