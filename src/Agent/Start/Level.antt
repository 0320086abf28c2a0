-- ===== src/Agent/Start/Level.antt =====
-- The state of an agent that has been started, against all that is below it.
use libudjat.Base.{
  ℕ, ◌≤◌, ◌≡◌, refl, sym, subst, ◌⊎◌, inl, inr, false, List, [], ◌∷◌, ◌++◌, arith, All, Among,
}
use libudjat.Agent.{
  agent_of, set_current, states, worst, Info, Agent, Tree, Forest, was_set, node, leaf, more,
}
use libudjat.Agent.Start.{first_state, start, start_all}
use libudjat.Agent.Worst.{IsWorst, worst_lem}
use libudjat.Agent.Forwarded.{Everywhere, EverywhereAll}

-- The own states of an agent and of all agents below it.
unfoldable mutual
  pub owns : Tree → List ℕ
  owns (node a f) = a.own ∷ owns_all f

  pub owns_all : Forest → List ℕ
  owns_all leaf = []
  owns_all (more t f) = owns t ++ owns_all f

Among-append_left : (x : ℕ) (xs ys : List ℕ) → Among x xs → Among x (xs ++ ys)
Among-append_left x [] ys m = absurd m
Among-append_left x (y ∷ xs) ys (inl e) = inl e
Among-append_left x (y ∷ xs) ys (inr m) = inr (Among-append_left x xs ys m)

Among-append_right : (x : ℕ) (xs ys : List ℕ) → Among x ys → Among x (xs ++ ys)
Among-append_right x [] ys m = m
Among-append_right x (y ∷ xs) ys m = inr (Among-append_right x xs ys m)

Among-append_cases : (x : ℕ) (xs ys : List ℕ) → Among x (xs ++ ys) → Among x xs ⊎ Among x ys
Among-append_cases x [] ys m = inr m
Among-append_cases x (y ∷ xs) ys (inl e) = inl (inl e)
Among-append_cases x (y ∷ xs) ys (inr m) = elim (Among-append_cases x xs ys m) [
  | inl l ↦ inl (inr l)
  | inr r ↦ inr r
]

All-Among : (Q : ℕ → Type 0) (x : ℕ) (xs : List ℕ) → All Q xs → Among x xs → Q x
All-Among Q x [] h m = absurd m
All-Among Q x (y ∷ xs) h (inl e) = subst Q (sym e) h.0
All-Among Q x (y ∷ xs) h (inr m) = All-Among Q x xs h.1 m

each : (Q : ℕ → Type 0) (xs : List ℕ) → ((x : ℕ) → Among x xs → Q x) → All Q xs
each Q [] h = tt
each Q (x ∷ xs) h = (h x (inl refl), each Q xs (λ y m. h y (inr m)))

-- The states of the children against the own states of all below.
abbrev pub Covers : Info → List ℕ → List ℕ → Type 0
Covers info tops below =
    ((c : ℕ) → Among c tops → Among c below)
    × ((x : ℕ) → Among x below → (c : ℕ) × Among c tops × (info.level x ≤ info.level c))

first_state-IsWorst :
    (info : Info) (now : ℕ) (a : Agent) (g : Forest) (below : List ℕ)
    → info.forward a.own ≡ false
    → Covers info (states g) below
    → IsWorst info (agent_of (first_state info now a g)).selected (a.own ∷ below)
unfolding first_state
first_state-IsWorst info now a g below h (from, upto) =
    subst (λ w. IsWorst info w (a.own ∷ below)) (sym taken)
      (
        among worst_of.0,
        (
          worst_of.1.0,
          each (λ x. info.level x ≤ info.level (worst info a.own (states g))) below capped,
        ),
      )
  where
    taken : (agent_of (first_state info now a g)).selected ≡ worst info a.own (states g)
    taken = rw h refl

    worst_of : IsWorst info (worst info a.own (states g)) (a.own ∷ states g)
    worst_of = worst_lem info a.own (states g)

    among :
        Among (worst info a.own (states g)) (a.own ∷ states g)
        → Among (worst info a.own (states g)) (a.own ∷ below)
    among (inl e) = inl e
    among (inr m) = inr (from _ m)

    capped : (x : ℕ) → Among x below → info.level x ≤ info.level (worst info a.own (states g))
    capped x m =
        let (c, top, le) = upto x m in
        omega (
          arith,
          le,
          All-Among (λ c. info.level c ≤ info.level (worst info a.own (states g))) c (states g)
              worst_of.1.1 top,
        )

Covers-append :
    (info : Info) (top : ℕ) (tops xs ys : List ℕ)
    → IsWorst info top xs
    → Covers info tops ys
    → Covers info (top ∷ tops) (xs ++ ys)
Covers-append info top tops xs ys (m, le) (from, upto) =
    (λ c. by_place c, λ x n. by_part x (Among-append_cases x xs ys n))
  where
    by_place : (c : ℕ) → Among c (top ∷ tops) → Among c (xs ++ ys)
    by_place c (inl e) = Among-append_left c xs ys (subst (λ z. Among z xs) (sym e) m)
    by_place c (inr n) = Among-append_right c xs ys (from c n)

    by_part :
        (x : ℕ)
        → Among x xs ⊎ Among x ys
        → (c : ℕ) × Among c (top ∷ tops) × (info.level x ≤ info.level c)
    by_part x (inl n) = (top, inl refl, All-Among (λ c. info.level c ≤ info.level top) x xs le n)
    by_part x (inr n) = let (c, k, l) = upto x n in (c, inr k, l)

-- What an agent and all below it have been given, against the tree as it was.
unfoldable mutual
  unfolding owns

  pub AreWorst : Info → Tree → Tree → Type 0
  AreWorst info (node a f) (node b g) =
      IsWorst info b.selected (owns (node a f)) × AreWorstAll info f g

  pub AreWorstAll : Info → Forest → Forest → Type 0
  AreWorstAll info leaf leaf = Unit
  AreWorstAll info leaf (more u g) = ⊥
  AreWorstAll info (more t f) leaf = ⊥
  AreWorstAll info (more t f) (more u g) = AreWorst info t u × AreWorstAll info f g

first_state-AreWorst :
    (info : Info) (now : ℕ) (a : Agent) (f g : Forest)
    → info.forward a.own ≡ false
    → AreWorstAll info f g
    → IsWorst info (agent_of (first_state info now a g)).selected (a.own ∷ owns_all f)
    → AreWorst info (node a f) (first_state info now a g)
unfolding first_state AreWorst owns
first_state-AreWorst info now a f g h below =
    subst
      (λ t. IsWorst info (agent_of t).selected (a.own ∷ owns_all f) → AreWorst info (node a f) t)
      (sym taken) (λ top. (top, below))
  where
    taken : first_state info now a g ≡ node (set_current a (worst info a.own (states g)) was_set) g
    taken = rw h refl

mutual
  unfolding start owns Everywhere

  start-IsWorst_loop :
      (info : Info) (now : ℕ) (t : Tree)
      → Everywhere (λ a. info.forward a.own ≡ false) t
      → IsWorst info (agent_of (start info now t)).selected (owns t)
  start-IsWorst_loop info now (node a f) h =
      first_state-IsWorst info now a (start_all info now f) (owns_all f) h.0
        (start_all-Covers info now f h.1)

  start_all-Covers :
      (info : Info) (now : ℕ) (f : Forest)
      → EverywhereAll (λ a. info.forward a.own ≡ false) f
      → Covers info (states (start_all info now f)) (owns_all f)
  start_all-Covers info now leaf h = (λ c m. m, λ x m. absurd m)
  start_all-Covers info now (more t f) h =
      Covers-append info (agent_of (start info now t)).selected (states (start_all info now f))
        (owns t) (owns_all f) (start-IsWorst_loop info now t h.0) (start_all-Covers info now f h.1)

mutual
  unfolding start Everywhere AreWorst

  start-AreWorst_loop :
      (info : Info) (now : ℕ) (t : Tree)
      → Everywhere (λ a. info.forward a.own ≡ false) t
      → AreWorst info t (start info now t)
  start-AreWorst_loop info now (node a f) h =
      first_state-AreWorst info now a f (start_all info now f) h.0
        (start_all-AreWorstAll info now f h.1) (start-IsWorst_loop info now (node a f) h)

  start_all-AreWorstAll :
      (info : Info) (now : ℕ) (f : Forest)
      → EverywhereAll (λ a. info.forward a.own ≡ false) f
      → AreWorstAll info f (start_all info now f)
  start_all-AreWorstAll info now leaf h = tt
  start_all-AreWorstAll info now (more t f) h =
      (start-AreWorst_loop info now t h.0, start_all-AreWorstAll info now f h.1)

-- Where no agent forwards its own state, the start gives every agent, the root and each below it,
-- the worst of its own state and the own states of all agents below it, however deep: it is one of
-- these, and none has a higher level.
pub start-IsWorst :
    (info : Info) (now : ℕ) (t : Tree)
    → Everywhere (λ a. info.forward a.own ≡ false) t
    → AreWorst info t (start info now t)
start-IsWorst = start-AreWorst_loop
