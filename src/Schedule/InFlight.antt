-- ===== src/Schedule/InFlight.antt =====
-- An agent is updated by one task at a time.
use libudjat.Base.{
  ℕ, ◌+◌, ◌-◌, ◌≤◌, ◌<◌, ◌≡◌, sym, subst, ◌⊎◌, inl, inr, true, false, List, [], ◌∷◌, arith, ◌==◌,
  if◌then◌else◌, ==→eq, Bool-cases, count, count-append,
}
use libudjat.Schedule.{
  put, visit, take_out, Round, Controller, Step, begins, visits, ends, finishes,
}

-- Tasks of an agent that are on the list or in the thread pool.
abbrev pub pending : ℕ → Controller → ℕ
pending x c = count x c.round.update_list + count x c.tasks

-- There is one at most, and while there is one the agent is marked as running.
pub record InFlight (c : Controller) : Type 0 where
  pub one : (x : ℕ) → pending x c ≤ 1
  pub marked : (x : ℕ) → 0 < pending x c → 0 < c.round.agents.running x

count-take_out :
    (x y : ℕ) (xs : List ℕ) → count y (take_out x xs) ≡ count y xs - (if y == x then 1 else 0)
count-take_out x y [] = ground arith
count-take_out x y (z ∷ zs) = ground (arith, count-take_out x y zs)

-- What a visit does to the tasks of `y`: it adds one to those of an agent that is not running, and
-- marks it.
abbrev Visited : ℕ → Round → Round → Type 0
Visited y r q =
    ((count y q.update_list ≡ count y r.update_list) × (q.agents.running y ≡ r.agents.running y))
    ⊎ ((count y q.update_list ≡ count y r.update_list + 1)
        × (r.agents.running y ≡ 0)
        × (0 < q.agents.running y))

visit-Visited : (now clock x y : ℕ) (r : Round) → 0 < clock → Visited y r (visit now clock x r)
unfolding visit
visit-Visited now clock x y r h = ground (arith, count-append y r.update_list (x ∷ []))

-- Every step of the controller and of the tasks keeps it so that no agent is updated by two tasks at
-- a time, and that an agent whose update has not ended is marked.
pub Step-InFlight : {c d : Controller} → Step c d → InFlight c → InFlight d
Step-InFlight (begins c now min_update visited idle h) i = record {
  one = λ x. omega (arith, i.one x);
  marked = λ x p. i.marked x (omega (arith, p));
}
Step-InFlight (visits c now clock x xs e h) i = record {
  one = λ y. one_left y (visit-Visited now clock x y c.round h) (i.one y) (i.marked y);
  marked = λ y. still_marked y (visit-Visited now clock x y c.round h) (i.marked y);
}
  where
    after : Round
    after = visit now clock x c.round

    one_left :
        (y : ℕ)
        → Visited y c.round after
        → pending y c ≤ 1
        → (0 < pending y c → 0 < c.round.agents.running y)
        → count y after.update_list + count y c.tasks ≤ 1
    one_left y (inl (e, f)) one marked = omega arith
    one_left y (inr (e, f, g)) one marked = ground arith

    still_marked :
        (y : ℕ)
        → Visited y c.round after
        → (0 < pending y c → 0 < c.round.agents.running y)
        → 0 < count y after.update_list + count y c.tasks
        → 0 < after.agents.running y
    still_marked y (inl (e, f)) marked p = ground arith
    still_marked y (inr (e, f, g)) marked p = g
Step-InFlight (ends c e) i = record {
  one = λ x. omega (arith, i.one x, count-append x c.tasks c.round.update_list);
  marked = λ x p. i.marked x (omega (arith, p, count-append x c.tasks c.round.update_list));
}
Step-InFlight (finishes c x next h) i = record {
  one = λ y. one_left y (Bool-cases (y == x)) (i.one y);
  marked = λ y. still_marked y (Bool-cases (y == x)) (i.one y) (i.marked y);
}
  where
    count_le : (y : ℕ) → count y (take_out x c.tasks) ≤ count y c.tasks
    count_le y = ground (arith, count-take_out x y c.tasks)

    gone :
        (y : ℕ)
        → 0 < count y c.tasks
        → (y == x) ≡ true
        → pending y c ≤ 1
        → 0 < count y c.round.update_list + count y (take_out x c.tasks)
        → ⊥
    gone y k same one p = ground (arith, count-take_out x y c.tasks)

    one_left :
        (y : ℕ)
        → ((y == x) ≡ true) ⊎ ((y == x) ≡ false)
        → pending y c ≤ 1
        → count y c.round.update_list + count y (take_out x c.tasks) ≤ 1
    one_left y t one = omega (arith, count_le y)

    still_marked :
        (y : ℕ)
        → ((y == x) ≡ true) ⊎ ((y == x) ≡ false)
        → pending y c ≤ 1
        → (0 < pending y c → 0 < c.round.agents.running y)
        → 0 < count y c.round.update_list + count y (take_out x c.tasks)
        → 0 < put c.round.agents.running x 0 y
    still_marked y (inl same) one marked p =
        absurd (gone y (subst (λ z. 0 < count z c.tasks) (sym (==→eq y x same)) h) same one p)
    still_marked y (inr other) one marked p = rw other (marked (omega (arith, count_le y)))
