-- ===== src/Agent/Update.antt =====
-- src/library/agent/update.cc (`updated`): the state after the value of an agent was read. `now` is
-- the time; the branches that catch an exception of `computeState` are left out.
use libudjat.Base.{
  ℕ, ◌+◌, ◌≡◌, refl, sym, Bool, true, false, not, ◌&&◌, Option, none, some, List, [], ltb, leb,
  ◌==◌, if◌then◌else◌, ==→eq, Result, err, ok,
}
use libudjat.Agent.{
  agent_of, set_current, release_all, notices, on_state_change, map_forest, forward, height_all,
  worst, computed, rebuild, update_parents, set_state, Info, Agent, Tree, Forest, Event, Ancestor,
  Error, was_activated, node,
}

-- The state that `updated` chooses: a forwarded one is not given up for that of a child.
abbrev pub state_of_update : Info → Tree → ℕ
state_of_update info (node a f) = if info.forward a.own then a.own else computed info (node a f)

-- `if(update.timer && update.next <= update.last)`
abbrev pub reschedule : ℕ → Agent → Agent
reschedule now a = if ltb 0 a.timer && leb a.next now then record a { next = now + a.timer } else a

-- `updated`: whether the value changed, and the whole tree afterwards.
unfoldable pub updated : Info → ℕ → Bool → Tree → List Ancestor → Result Error (Bool × Tree)
unfolding set_state worst
updated info now changed (node a f) above =
    if not changed
    then ok (false, rebuild (node (reschedule now a) f) above)
    else elim (set_state info now (some (state_of_update info (node a f)))
        (node (reschedule now a) f) above) [ err e ↦ err e | ok (taken, tree) ↦ ok (true, tree) ]

-- An update with a new value never fails on the root of the tree, and leaves it in the state that
-- was chosen: its own one if that is forwarded, or else the worst of its own and its children's.
pub updated-selected :
    (info : Info) (now : ℕ) (a : Agent) (f : Forest)
    → (t : Tree) × (updated info now true (node a f) [] ≡ ok (true, t))
      × ((agent_of t).selected ≡ state_of_update info (node a f))
unfolding updated set_state on_state_change update_parents
updated-selected info now a f = taken (s == b.selected) refl
  where
    b : Agent
    b = reschedule now a

    s : ℕ
    s = state_of_update info (node a f)

    released : Forest
    released = if info.forward b.selected then release_all now b.selected f else f

    after : Forest
    after =
        if info.forward s
        then map_forest (forward (height_all released) info now s) released
        else released

    taken :
        (same : Bool)
        → (s == b.selected) ≡ same
        → (t : Tree) × ((elim (elim (if◌then◌else◌ {A = Option (Tree × List Event)} same none
                  (some (node (set_current b s was_activated) released, notices info true b s)))
                as (λ o. Result Error (Bool × Tree)) [
                  | none ↦ ok (false, node b f)
                  | some (node c g, events) ↦ ok (
                    true,
                    node c (
                        if info.forward s
                        then map_forest (forward (height_all g) info now s) g
                        else g),
                  )
                ])
              as (λ r. Result Error (Bool × Tree)) [
                | err e ↦ err e
                | ok (done, tree) ↦ ok (true, tree)
              ])
            ≡ ok (true, t))
          × ((agent_of t).selected ≡ s)
    taken true e = (node b f, refl, sym (==→eq s b.selected e))
    taken false e = (node (set_current b s was_activated) after, refl, refl)
