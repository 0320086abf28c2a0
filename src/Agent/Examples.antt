-- ===== src/Agent/Examples.antt =====
-- Tests of Agent.
use libudjat.Base.{ℕ, ◌/◌, ◌≡◌, refl, ◌≢◌, true, false, some, [], ◌∷◌, arith, leb, ok}
use libudjat.Agent.{
  agent_of, children, set_current, release, on_state_change, map_forest, mark_forwarded, forward,
  height, worst, computed, plug, update_parents, set_state, Info, Agent, Tree, Ancestor, was_set,
  was_activated, node, leaf, more,
}
use libudjat.Agent.Listeners.{bits_meet, notify}
use libudjat.Agent.Start.{first_state, start}
use libudjat.Agent.Start.Level.{AreWorst, start-IsWorst}
use libudjat.Agent.Worst.{IsWorst, computed-IsWorst}
use libudjat.Agent.Recompute.{recompute, IsSettled, update_parents-recompute}
use libudjat.Agent.Forwarded.{Everywhere, EverywhereAll, on_state_change-releases}

-- States 10 to 19 have level 1, and so on; the states from 40 on are forwarded.
abbrev info : Info
info = record { level = λ s. s / 10; forward = λ s. leb 40 s }

abbrev agent : ℕ → ℕ → Agent
agent own selected = record {
  own = own;
  selected = selected;
  activation = was_set;
  timer = 60;
  next = 5;
}

abbrev child : Tree
child = node (agent 10 10) leaf

abbrev root : Ancestor
root = record { agent = agent 11 11; left = node (agent 12 12) leaf ∷ []; right = leaf }

-- A warning goes up to the root.
set-warning :
    set_state info 100 (some 30) child (root ∷ [])
    ≡ ok (
      true,
      node (set_current (agent 11 11) 30 was_set) (
          more
            (node (agent 12 12) leaf)
            (more (node (set_current (agent 10 10) 30 was_activated) leaf) leaf)),
    )
unfolding set_state update_parents on_state_change worst forward height
set-warning = refl

-- A critical state of the root is forwarded to a child.
set-critical :
    set_state info 100 (some 40) (plug root child) []
    ≡ ok (
      true,
      node (set_current (agent 11 11) 40 was_activated) (
          more
            (node (mark_forwarded (set_current (agent 12 12) 40 was_set)) leaf)
            (more (node (mark_forwarded (set_current (agent 10 10) 40 was_set)) leaf) leaf)),
    )
unfolding set_state update_parents on_state_change worst forward height map_forest
set-critical = refl

-- While it holds, a child is not set.
set-held :
    set_state info 100
      (some 20)
      child
      (record root { agent = set_current (agent 11 11) 40 was_activated } ∷ [])
    ≡ ok (false, plug (record root { agent = set_current (agent 11 11) 40 was_activated }) child)
unfolding set_state
set-held = refl

computed-IsWorst_example :
    IsWorst info
      (computed info (node (agent 10 10) (more child (more (node (agent 30 30) leaf) leaf))))
      (10 ∷ 10 ∷ 30 ∷ [])
computed-IsWorst_example =
    computed-IsWorst info (agent 10 10) (more child (more (node (agent 30 30) leaf) leaf))

update_parents-recompute_example :
    update_parents info 100 (node (agent 10 30) leaf) (root ∷ [])
    ≡ recompute info 100 (node (agent 10 30) leaf) (root ∷ [])
unfolding IsSettled worst
update_parents-recompute_example =
    update_parents-recompute info 100 11 (node (agent 10 30) leaf) (root ∷ []) root-IsSettled
  where
    root-IsSettled : IsSettled info 11 (root ∷ [])
    root-IsSettled = (refl, tt)

on_state_change-releases_example :
    EverywhereAll
      (λ b. b.selected ≢ 40)
      (children (
        node
          (set_current (agent 11 40) 11 was_activated)
          (more (node (set_current (record (agent 12 40) { next = 160 }) 12 was_set) leaf) leaf)))
unfolding Everywhere on_state_change release
on_state_change-releases_example =
    on_state_change-releases info 100 11 true (agent 11 40) (more (node (agent 12 40) leaf) leaf) _
      _ refl (((λ e. absurd (omega arith)), tt), tt) refl

-- A tree whose states do not forward.
abbrev calm : Tree
calm = node (agent 11 11) (more (node (agent 20 20) (more (node (agent 30 30) leaf) leaf)) leaf)

start-IsWorst_example : AreWorst info calm (start info 100 calm)
unfolding Everywhere
start-IsWorst_example = start-IsWorst info 100 calm (refl, ((refl, ((refl, tt), tt)), tt))

start-calm : (agent_of (start info 100 calm)).selected ≡ 30
unfolding start first_state worst
start-calm = refl

-- The event for all events leaves out that an agent is ready.
notify-all : notify 64 (record { event = 287; activatable = 1 } ∷ []) ≡ []
unfolding notify bits_meet
notify-all = refl
