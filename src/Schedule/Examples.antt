-- ===== src/Schedule/Examples.antt =====
-- Tests of Schedule.
use libudjat.Base.{
  ℕ, ◌+◌, ◌*◌, ◌≤◌, ◌<◌, ◌≡◌, refl, ◌⊎◌, true, false, List, [], ◌∷◌, arith, ◌==◌, if◌then◌else◌,
  Among,
}
use libudjat.Schedule.{visit, visit_all, update_agents, Agents, Controller, visits}
use libudjat.Schedule.InFlight.{Step-InFlight, InFlight}
use libudjat.Schedule.Delay.{update_agents-bound}

-- Agent 1 is due and has a timer, 2 is still running, 3 is due later, 4 is due once.
abbrev agents : Agents
agents = record {
  timer = λ x. if x == 1 then 30 else 0;
  next = λ x. if x == 3 then 1020 else 990;
  running = λ x. if x == 2 then 900 else 0;
  forwarded = λ x. false;
}

abbrev round_at : ℕ × List ℕ × Agents
round_at = update_agents 1000 600 (λ x. 1001) (1 ∷ 2 ∷ 3 ∷ 4 ∷ []) agents

round_at-interval : round_at.0 ≡ 20000
unfolding update_agents visit_all visit
round_at-interval = refl

round_at-tasks : round_at.1 ≡ 1 ∷ 4 ∷ []
unfolding update_agents visit_all visit
round_at-tasks = refl

update_agents-bound_example :
    (0 < round_at.0)
    × (round_at.0 ≤ 600 * 1000)
    × ((x : ℕ)
        → Among x (1 ∷ 2 ∷ 3 ∷ 4 ∷ [])
        → (round_at.2.next x ≡ 0)
          ⊎ (round_at.2.forwarded x ≡ true)
          ⊎ (1000 * 1000 + round_at.0 ≤ round_at.2.next x * 1000))
update_agents-bound_example =
    update_agents-bound 1000 600 (λ x. 1001) (1 ∷ 2 ∷ 3 ∷ 4 ∷ []) agents (omega arith) (omega arith)

-- The task of agent 2 is in the thread pool, and agent 1 is next to be visited.
abbrev controller : Controller
controller = record {
  updating = 1000;
  left = 1 ∷ [];
  round = record { soonest = 1600; update_list = []; agents = agents };
  tasks = 2 ∷ [];
}

controller-InFlight : InFlight controller
controller-InFlight = record { one = λ x. ground arith; marked = λ x p. ground arith }

Step-InFlight_example :
    InFlight (record controller { left = []; round = visit 1000 1001 1 controller.round })
Step-InFlight_example =
    Step-InFlight (visits controller 1000 1001 1 [] refl (omega arith)) controller-InFlight
