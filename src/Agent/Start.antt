-- ===== src/Agent/Start.antt =====
-- src/library/agent/start.cc: the start of an agent and of what is below it. Every agent has a state
-- already, as the constructor gives it one; an exception of a child is left out.
pub mod Level
use libudjat.Base.{ℕ, if◌then◌else◌}
use libudjat.Agent.{
  set_current, map_forest, forward, height, height_all, states, worst, Info, Agent, Tree, Forest,
  was_set, node, leaf, more,
}

-- The first state of an agent that does not forward its own is that of the worst child, if that is
-- worse; one that forwards is handed to the children that have been started.
unfoldable pub first_state : Info → ℕ → Agent → Forest → Tree
unfolding forward height worst map_forest
first_state info now a g =
    if info.forward a.own
    then node (set_current a a.own was_set) (map_forest (forward (height_all g) info now a.own) g)
    else node (set_current a (worst info a.own (states g)) was_set) g

unfoldable mutual
  unfolding first_state

  pub start : Info → ℕ → Tree → Tree
  start info now (node a f) = first_state info now a (start_all info now f)

  pub start_all : Info → ℕ → Forest → Forest
  start_all info now leaf = leaf
  start_all info now (more t f) = more (start info now t) (start_all info now f)
