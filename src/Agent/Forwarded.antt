-- ===== src/Agent/Forwarded.antt =====
-- Where a forwarded state ends up: it is taken from the children, and the fuel of `forward` is
-- enough.
use libudjat.Base.{
  ℕ, zero, suc, ◌≤◌, ◌≡◌, refl, sym, ap, subst, ◌∙◌, ◌≢◌, inl, inr, Bool, true, false, Option, none,
  some, List, arith, ltb, ◌==◌, if◌then◌else◌, Bool-cases,
}
use libudjat.Agent.{
  children, set_current, release_agent, release, release_all, notices, on_state_change, map_forest,
  mark_forwarded, spread, forward, height, height_all, Info, Agent, Tree, Forest, Event, was_set,
  was_activated, node, leaf, more,
}

-- Each agent of the tree satisfies `Q`.
unfoldable mutual
  pub Everywhere : (Agent → Type 0) → Tree → Type 0
  Everywhere Q (node a f) = Q a × EverywhereAll Q f

  pub EverywhereAll : (Agent → Type 0) → Forest → Type 0
  EverywhereAll Q leaf = Unit
  EverywhereAll Q (more t f) = Everywhere Q t × EverywhereAll Q f

release_agent-selected :
    (now old : ℕ) (a : Agent) → a.own ≢ old → (release_agent now old a).selected ≢ old
release_agent-selected now old a h = elim (Bool-cases (a.selected == old)) [
  | inl same ↦ rw same h
  | inr other ↦ rw other (λ e. differs other e)
]
  where
    differs : (a.selected == old) ≡ false → a.selected ≢ old
    differs other e = ground arith

mutual
  unfolding release Everywhere

  release_left :
      (now old : ℕ) (t : Tree)
      → Everywhere (λ a. a.own ≢ old) t
      → Everywhere (λ a. a.selected ≢ old) (release now old t)
  release_left now old (node a f) (h, hs) =
      (release_agent-selected now old a h, release_all_left now old f hs)

  release_all_left :
      (now old : ℕ) (f : Forest)
      → EverywhereAll (λ a. a.own ≢ old) f
      → EverywhereAll (λ a. a.selected ≢ old) (release_all now old f)
  release_all_left now old leaf h = tt
  release_all_left now old (more t f) (h, hs) =
      (release_left now old t h, release_all_left now old f hs)

node_or : Tree → Option (Tree × List Event) → Tree
node_or t none = t
node_or t (some (u, es)) = u

released :
    (Q : Agent → Type 0) (same forwards : Bool) (x : Agent) (r f : Forest) (es events : List Event)
    (after : Tree)
    → if◌then◌else◌ {A = Option (Tree × List Event)} same none
        (some (node x (if forwards then r else f), es))
      ≡ some (after, events)
    → forwards ≡ true
    → EverywhereAll Q r
    → EverywhereAll Q (children after)
unfolding node_or
released Q true forwards x r f es events after e marked every = absurd cc
released Q false false x r f es events after e marked every = absurd cc
released Q false true x r f es events after e marked every =
    subst (λ t. EverywhereAll Q (children t)) (ap (node_or (node x f)) e) every

-- If an agent leaves a forwarded state that none of those below computes for itself, then no
-- agent below has that state afterwards.
pub on_state_change-releases :
    (info : Info) (now s : ℕ) (activate : Bool) (a : Agent) (f : Forest) (after : Tree)
    (events : List Event)
    → info.forward a.selected ≡ true
    → EverywhereAll (λ b. b.own ≢ a.selected) f
    → on_state_change info now s activate (node a f) ≡ some (after, events)
    → EverywhereAll (λ b. b.selected ≢ a.selected) (children after)
unfolding on_state_change
on_state_change-releases info now s activate a f after events forwards owns e =
    released (λ b. b.selected ≢ a.selected) (s == a.selected) (info.forward a.selected) _
      (release_all now a.selected f) f _ events after e forwards
      (release_all_left now a.selected f owns)

mutual
  unfolding release height

  height-release : (now old : ℕ) (t : Tree) → height (release now old t) ≡ height t
  height-release now old (node a f) = ap suc (height_all-release_all now old f)

  height_all-release_all :
      (now old : ℕ) (f : Forest) → height_all (release_all now old f) ≡ height_all f
  height_all-release_all now old leaf = refl
  height_all-release_all now old (more t f) =
      rw (height-release now old t, height_all-release_all now old f) refl

map_forest_agrees :
    (g h : Tree → Tree) (n : ℕ) (f : Forest)
    → ((t : Tree) → height t ≤ n → g t ≡ h t)
    → height_all f ≤ n
    → map_forest g f ≡ map_forest h f
unfolding map_forest height
map_forest_agrees g h n leaf same le = refl
map_forest_agrees g h n (more t f) same le =
    cong2 more (same t (first (height t) (height_all f) le))
      (map_forest_agrees g h n f same (second (height t) (height_all f) le))
  where
    first : (x y : ℕ) → (if ltb x y then y else x) ≤ n → x ≤ n
    first x y le = ground arith

    second : (x y : ℕ) → (if ltb x y then y else x) ≤ n → y ≤ n
    second x y le = ground arith

    cong2 : (c : Tree → Forest → Forest) {x y : Tree} {u v : Forest} → x ≡ y → u ≡ v → c x u ≡ c y v
    cong2 c p q = cc

height-on_state_change :
    (info : Info) (now s : ℕ) (activate : Bool) (t : Tree)
    → (o : Option (Tree × List Event)) → on_state_change info now s activate t ≡ o
    → height (node_or t o) ≡ height t
unfolding on_state_change height node_or
height-on_state_change info now s activate t none e = refl
height-on_state_change info now s activate (node a f) (some (u, events)) e =
    ap (λ o. height (node_or (node a f) o)) (sym e)
    ∙ by_test (s == a.selected) (info.forward a.selected)
  where
    by_test :
        (b c : Bool)
        → height (
            node_or (node a f) (
              if b
              then none
              else some (
                node
                    (set_current a s (if activate then was_activated else was_set))
                    (if c then release_all now a.selected f else f),
                notices info activate a s,
              )))
          ≡ suc (height_all f)
    by_test true c = refl
    by_test false true = ap suc (height_all-release_all now a.selected f)
    by_test false false = refl

-- The fuel of `forward` is enough when it is the height of the tree: with more it does the same.
pub forward_enough :
    (info : Info) (now s fuel : ℕ) (t : Tree)
    → height t ≤ fuel
    → forward (suc fuel) info now s t ≡ forward fuel info now s t
unfolding forward height spread node_or
forward_enough info now s zero (node a f) le = absurd (omega arith)
forward_enough info now s (suc fuel) (node a f) le =
    agree _
      (subst (λ h. h ≤ suc fuel) (sym (height-on_state_change info now s false (node a f) _ refl))
        le)
      (forward_enough info now s fuel)
  where
    agree :
        (o : Option (Tree × List Event))
        → height (node_or (node a f) o) ≤ suc fuel
        → ((t : Tree)
            → height t ≤ fuel
            → forward (suc fuel) info now s t ≡ forward fuel info now s t)
        → spread (forward (suc fuel) info now s) (node a f) o
          ≡ spread (forward fuel info now s) (node a f) o
    agree none low ih = refl
    agree (some (node b g, events)) low ih = ap (node (mark_forwarded b)) (
        map_forest_agrees (forward (suc fuel) info now s) (forward fuel info now s) fuel g ih
          (omega arith))
