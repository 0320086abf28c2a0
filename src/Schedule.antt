-- ===== src/Schedule.antt =====
-- src/library/agent/controller.cc: when the controller updates the agents. An agent is a number, as
-- its address is; `visited` is the order in which `for_each` comes to the agents below the root. Times
-- are in seconds, and the clock of a call a parameter. The update of an agent is a task of the thread
-- pool; what it does besides its flag and its time is not modelled.
pub mod Delay
pub mod InFlight
mod Examples
use libudjat.Base.{
  ℕ, ◌+◌, ◌-◌, ◌*◌, ◌%◌, ◌^◌, ◌<◌, ◌≡◌, Bool, not, ◌&&◌, ◌||◌, List, [], ◌∷◌, ◌++◌, ltb, leb, ◌==◌,
  if◌then◌else◌, count,
}

-- The fields of `update` of each agent, and `current_state.forwarded()`.
pub record Agents : Type 0 where
  pub timer : ℕ → ℕ
  pub next : ℕ → ℕ
  pub running : ℕ → ℕ
  pub forwarded : ℕ → Bool

abbrev pub put : (ℕ → ℕ) → ℕ → ℕ → ℕ → ℕ
put field x value y = if y == x then value else field y

-- `next`, `updatelist` and the agents, in `update_agents`.
pub record Round : Type 0 where
  pub soonest : ℕ
  pub update_list : List ℕ
  pub agents : Agents

abbrev pub min : ℕ → ℕ → ℕ
min a b = if ltb b a then b else a

-- An agent that is due: it is still updated, or its update is put on the list. `clock` is `time(0)`.
abbrev pub due : ℕ → ℕ → ℕ → Round → Round
due now clock x r =
    if not (r.agents.running x == 0)
    then record r {
      soonest = min r.soonest (now + 60);
      agents = record r.agents { next = put r.agents.next x (now + 60) };
    }
    else if r.agents.timer x == 0
    then record r {
      update_list = r.update_list ++ x ∷ [];
      agents = record r.agents {
        running = put r.agents.running x clock;
        next = put r.agents.next x 0;
      };
    }
    else record {
      soonest = min r.soonest (now + r.agents.timer x);
      update_list = r.update_list ++ x ∷ [];
      agents = record r.agents {
        running = put r.agents.running x clock;
        next = put r.agents.next x (now + r.agents.timer x);
      };
    }

-- The function that `for_each` calls.
unfoldable pub visit : ℕ → ℕ → ℕ → Round → Round
visit now clock x r =
    if r.agents.next x == 0 || r.agents.forwarded x
    then r
    else if leb (r.agents.next x) now
    then due now clock x r
    else record r { soonest = min r.soonest (r.agents.next x) }

unfoldable pub visit_all : ℕ → (ℕ → ℕ) → List ℕ → Round → Round
unfolding visit
visit_all now clock [] r = r
visit_all now clock (x ∷ xs) r = visit_all now clock xs (visit now (clock x) x r)

-- The interval that the timer of the controller is reset to, in milliseconds.
abbrev pub interval : ℕ → ℕ → ℕ
interval now soonest = if ltb now soonest then (soonest - now) * 1000 % 2 ^ 64 else 1000

-- `update_agents`: the interval, the tasks that are pushed, and the agents.
unfoldable pub update_agents : ℕ → ℕ → (ℕ → ℕ) → List ℕ → Agents → ℕ × List ℕ × Agents
unfolding visit_all
update_agents now min_update clock visited agents =
    let r =
      visit_all now clock visited
        (record { soonest = now + min_update; update_list = []; agents = agents }) in
    (interval now r.soonest, r.update_list, r.agents)

-- `start`: the next update of the agents that have a timer and no time.
unfoldable pub start : ℕ → List ℕ → Agents → Agents
start now [] agents = agents
start now (x ∷ xs) agents = start now xs (
    if not (agents.timer x == 0) && agents.next x == 0
    then record agents { next = put agents.next x (now + agents.timer x) }
    else agents)

-- `updating`, and how far the round has come; the agents that are still to be visited, and the tasks
-- of the thread pool that have not ended.
pub record Controller : Type 0 where
  pub updating : ℕ
  pub left : List ℕ
  pub round : Round
  pub tasks : List ℕ

-- One time out of a list.
abbrev pub take_out : ℕ → List ℕ → List ℕ
take_out x [] = []
take_out x (y ∷ ys) = let rest = take_out x ys in if y == x then ys else y ∷ rest

-- The steps of the threads: a task of `on_timer` begins a round if none runs, comes to one agent after
-- the other, and pushes the tasks; a task of an agent ends, which clears `running` and may have set
-- the time of the agent in any way.
pub data Step : Controller → Controller → Type 0 where
  begins :
      (c : Controller) (now min_update : ℕ) (visited : List ℕ)
      → c.updating ≡ 0
      → 0 < now
      → Step c (record c {
        updating = now;
        left = visited;
        round = record c.round { soonest = now + min_update; update_list = [] };
      })
  visits :
      (c : Controller) (now clock x : ℕ) (xs : List ℕ)
      → c.left ≡ x ∷ xs
      → 0 < clock
      → Step c (record c { left = xs; round = visit now clock x c.round })
  ends :
      (c : Controller)
      → c.left ≡ []
      → Step c (record c {
        updating = 0;
        tasks = c.tasks ++ c.round.update_list;
        round = record c.round { update_list = [] };
      })
  finishes :
      (c : Controller) (x next : ℕ)
      → 0 < count x c.tasks
      → Step c (record c {
        tasks = take_out x c.tasks;
        round = record c.round {
          agents = record c.round.agents {
            running = put c.round.agents.running x 0;
            next = put c.round.agents.next x next;
          };
        };
      })
