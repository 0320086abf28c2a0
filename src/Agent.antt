-- ===== src/Agent.antt =====
-- src/library/agent/state.cc and set.cc (`forward`): how the state of an agent changes, and how the
-- change goes up to its ancestors and down to its children.
-- A state is the address of a state object, which does not change; `Info` is what those
-- objects hold. An agent stands in a tree: those over it are a list of ancestors, each with its
-- children left and right of the path. The branches that catch an exception of a state that is
-- activated or deactivated are left out.
pub mod Start
pub mod Worst
pub mod Recompute
pub mod Forwarded
pub mod Path
pub mod Update
pub mod Values
pub mod Listeners
mod Examples
use libudjat.Base.{
  ℕ, zero, suc, ◌+◌, Bool, true, false, ◌&&◌, Option, none, some, List, [], ◌∷◌, ◌++◌, ltb, leb,
  ◌==◌, if◌then◌else◌, Result, err, ok,
}

pub record Info : Type 0 where
  pub level : ℕ → ℕ
  pub forward : ℕ → Bool

pub data Activation : Type 0 where
  was_set was_activated was_forwarded : Activation

-- `computeState()` of the agent, `current_state`, and two fields of `update`.
pub record Agent : Type 0 where
  pub own : ℕ
  pub selected : ℕ
  pub activation : Activation
  pub timer : ℕ
  pub next : ℕ

mutual
  pub data Tree : Type 0 where
    node : Agent → Forest → Tree

  pub data Forest : Type 0 where
    leaf : Forest
    more : Tree → Forest → Forest

-- What the listeners of an agent and of its states are told.
pub data Event : Type 0 where
  activates deactivates : ℕ → Event
  state_changed level_changed is_ready not_ready : Event

abbrev pub agent_of : Tree → Agent
agent_of (node a f) = a

abbrev pub children : Tree → Forest
children (node a f) = f

abbrev pub is_activated : Activation → Bool
is_activated was_activated = true
is_activated was_set = false
is_activated was_forwarded = false

-- `ready`: the level is `Level::ready` at most.
abbrev pub is_ready_level : ℕ → Bool
is_ready_level level = leb level 2

-- `current_state.set(state)` and `current_state.activate(state)`.
abbrev pub set_current : Agent → ℕ → Activation → Agent
set_current a s act = record a { selected = s; activation = act }

-- A child that has the forwarded state `old` goes back to its own.
abbrev pub release_agent : ℕ → ℕ → Agent → Agent
release_agent now old a =
    if a.selected == old
    then record a {
      selected = a.own;
      activation = was_set;
      next = if ltb 0 a.timer then now + a.timer else a.next;
    }
    else a

unfoldable mutual
  pub release : ℕ → ℕ → Tree → Tree
  release now old (node a f) = node (release_agent now old a) (release_all now old f)

  pub release_all : ℕ → ℕ → Forest → Forest
  release_all now old leaf = leaf
  release_all now old (more t f) = more (release now old t) (release_all now old f)

-- What `onStateChange` notifies, from the old state and the new one.
unfoldable pub notices : Info → Bool → Agent → ℕ → List Event
notices info activate a s =
    (if is_activated a.activation then deactivates a.selected ∷ [] else [])
    ++ ((if activate then activates s ∷ [] else [])
        ++ (state_changed
            ∷ (if info.level a.selected == info.level s
                then []
                else level_changed
                  ∷ (if is_ready_level (info.level s)
                      then (if is_ready_level (info.level a.selected) then [] else is_ready ∷ [])
                      else if is_ready_level (info.level a.selected)
                      then not_ready ∷ []
                      else []))))

-- `onStateChange`: `none` if it is the same state. The children are released first if the old
-- state was forwarded.
unfoldable pub on_state_change : Info → ℕ → ℕ → Bool → Tree → Option (Tree × List Event)
unfolding release notices
on_state_change info now s activate (node a f) =
    if s == a.selected
    then none
    else some (
      node (set_current a s (if activate then was_activated else was_set))
          (if info.forward a.selected then release_all now a.selected f else f),
      notices info activate a s,
    )

unfoldable pub map_forest : (Tree → Tree) → Forest → Forest
map_forest g leaf = leaf
map_forest g (more t f) = more (g t) (map_forest g f)

abbrev pub mark_forwarded : Agent → Agent
mark_forwarded a = record a { activation = was_forwarded; next = 0 }

-- An agent that took the state in is marked, and hands it to its children.
abbrev pub spread : (Tree → Tree) → Tree → Option (Tree × List Event) → Tree
unfolding map_forest
spread g t none = t
spread g t (some (node a f, events)) = node (mark_forwarded a) (map_forest g f)

-- `forward`, on fuel for the height of the tree.
unfoldable pub forward : ℕ → Info → ℕ → ℕ → Tree → Tree
unfolding on_state_change
forward zero info now s t = t
forward (suc fuel) info now s t =
    spread (forward fuel info now s) t (on_state_change info now s false t)

unfoldable mutual
  pub height : Tree → ℕ
  height (node a f) = suc (height_all f)

  pub height_all : Forest → ℕ
  height_all leaf = 0
  height_all (more t f) = if ltb (height t) (height_all f) then height_all f else height t

abbrev pub states : Forest → List ℕ
states leaf = []
states (more t f) = (agent_of t).selected ∷ states f

-- The loop over the children: a state with a higher level takes over.
unfoldable pub worst : Info → ℕ → List ℕ → ℕ
worst info s [] = s
worst info s (c ∷ cs) = worst info (if ltb (info.level s) (info.level c) then c else s) cs

-- `computed_state` of a parent.
abbrev pub computed : Info → Tree → ℕ
computed info (node a f) = worst info a.own (states f)

-- An agent as, with its children on both sides of the path.
pub record Ancestor : Type 0 where
  pub agent : Agent
  pub left : List Tree
  pub right : Forest

abbrev pub append : List Tree → Forest → Forest
append [] f = f
append (t ∷ ts) f = more t (append ts f)

-- The ancestor with the child on the path in its place, and the whole tree.
abbrev pub plug : Ancestor → Tree → Tree
plug a t = node a.agent (append a.left (more t a.right))

abbrev pub rebuild : Tree → List Ancestor → Tree
rebuild t [] = t
rebuild t (a ∷ above) = rebuild (plug a t) above

-- The `for(auto parent = …)` of `set`: it stops at a parent whose state does not change.
unfoldable pub update_parents : Info → ℕ → Tree → List Ancestor → Tree
unfolding on_state_change worst
update_parents info now t [] = t
update_parents info now t (a ∷ above) =
    elim (on_state_change info now (computed info (plug a t)) false (plug a t)) [
      | none ↦ rebuild (plug a t) above
      | some (changed, events) ↦ update_parents info now changed above
    ]

-- The parent is in a forwarded state that was activated.
abbrev pub held : Info → List Ancestor → Bool
held info [] = false
held info (a ∷ above) = is_activated a.agent.activation && info.forward a.agent.selected

pub data Error : Type 0 where
  empty_state : Error

-- `set`: the whole tree afterwards, and whether the state was taken.
unfoldable pub set_state : Info → ℕ → Option ℕ → Tree → List Ancestor → Result Error (Bool × Tree)
unfolding on_state_change forward height update_parents
set_state info now none t above = err empty_state
set_state info now (some s) t above =
    if held info above
    then ok (false, rebuild t above)
    else elim (on_state_change info now s true t) [
      | none ↦ ok (false, rebuild t above)
      | some (node a f, events) ↦ ok (
        true,
        update_parents info now
            (node a
              (if info.forward s then map_forest (forward (height_all f) info now s) f else f))
            above,
      )
    ]
