-- ===== src/Agent/Recompute.antt =====
-- Where `set` stops on the way up, nothing is left to do.
use libudjat.Base.{
  ℕ, ◌≡◌, refl, sym, ap, subst, ◌∙◌, true, false, Option, none, some, List, [], ◌∷◌, ◌++◌, ◌==◌,
  ==_refl,
}
use libudjat.Agent.{
  agent_of, on_state_change, states, worst, computed, append, plug, rebuild, update_parents, Info,
  Tree, Event, Ancestor, node, more,
}

-- A parent is given the state that is computed for it.
unfoldable pub react : Info → ℕ → Tree → Tree
unfolding on_state_change worst
react info now t = elim (on_state_change info now (computed info t) false t) [
  | none ↦ t
  | some (changed, events) ↦ changed
]

-- All parents are, up to the root.
unfoldable pub recompute : Info → ℕ → Tree → List Ancestor → Tree
unfolding react
recompute info now t [] = t
recompute info now t (a ∷ above) = recompute info now (react info now (plug a t)) above

abbrev left_states : List Tree → List ℕ
left_states [] = []
left_states (t ∷ ts) = (agent_of t).selected ∷ left_states ts

-- The states of the children, where the child on the path has the state `s`.
abbrev path_states : ℕ → Ancestor → List ℕ
path_states s a = left_states a.left ++ (s ∷ states a.right)

-- Each ancestor has the state that was computed when the child on the path had the one below.
unfoldable pub IsSettled : Info → ℕ → List Ancestor → Type 0
IsSettled info s [] = Unit
IsSettled info s (a ∷ above) =
    (worst info a.agent.own (path_states s a) ≡ a.agent.selected)
    × IsSettled info a.agent.selected above

react_same :
    (info : Info) (now : ℕ) (t : Tree)
    → computed info t ≡ (agent_of t).selected
    → react info now t ≡ t
unfolding react on_state_change worst
react_same info now (node a f) h =
    rw (subst (λ x. (x == a.selected) ≡ true) (sym h) (==_refl a.selected), react) refl

states-plug :
    (info : Info) (a : Ancestor) (t : Tree)
    → computed info (plug a t) ≡ worst info a.agent.own (path_states (agent_of t).selected a)
states-plug info a t = ap (worst info a.agent.own) (go a.left)
  where
    go :
        (ts : List Tree)
        → states (append ts (more t a.right))
          ≡ left_states ts ++ ((agent_of t).selected ∷ states a.right)
    go [] = refl
    go (x ∷ ts) = ap (◌∷◌ (agent_of x).selected) (go ts)

recompute_settled :
    (info : Info) (now : ℕ) (t : Tree) (above : List Ancestor)
    → IsSettled info (agent_of t).selected above
    → recompute info now t above ≡ rebuild t above
unfolding recompute react IsSettled
recompute_settled info now t [] h = refl
recompute_settled info now t (a ∷ above) (e, h) =
    ap (λ x. recompute info now x above) (react_same info now (plug a t) (states-plug info a t ∙ e))
    ∙ recompute_settled info now (plug a t) above h

-- If every ancestor has the state that is computed from those below it as they were before the
-- child changed, then `set` has the same effect as to compute the state of every ancestor up to
-- the root: to stop at the first that does not change loses nothing.
pub update_parents-recompute :
    (info : Info) (now old : ℕ) (t : Tree) (above : List Ancestor)
    → IsSettled info old above
    → update_parents info now t above ≡ recompute info now t above
unfolding recompute react update_parents IsSettled
update_parents-recompute info now old t [] h = refl
update_parents-recompute info now old t (a ∷ above) (e, h) =
    resume _ (λ changed. update_parents-recompute info now a.agent.selected changed above h)
  where
    resume :
        (o : Option (Tree × List Event))
        → ((changed : Tree)
            → update_parents info now changed above ≡ recompute info now changed above)
        → elim o as (λ o. Tree) [
          | none ↦ rebuild (plug a t) above
          | some (changed, events) ↦ update_parents info now changed above
        ]
          ≡ recompute info now
              (elim o as (λ o. Tree) [ none ↦ plug a t | some (changed, events) ↦ changed ])
              above
    resume none ih = sym (recompute_settled info now (plug a t) above h)
    resume (some (changed, events)) ih = ih changed
