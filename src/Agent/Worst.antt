-- ===== src/Agent/Worst.antt =====
-- What the state of a parent is computed to.
use libudjat.Base.{
  ℕ, ◌≤◌, ◌<◌, ◌≡◌, refl, sym, subst, inl, inr, Bool, false, List, [], ◌∷◌, arith, ltb,
  if◌then◌else◌, ltb→lt, Bool-cases, All, Among,
}
use libudjat.Agent.{states, worst, computed, Info, Agent, Forest, node}

-- `w` is in the list, and no state of the list has a higher level.
abbrev pub IsWorst : Info → ℕ → List ℕ → Type 0
IsWorst info w cs = Among w cs × All (λ c. info.level c ≤ info.level w) cs

pub worst_lem : (info : Info) (s : ℕ) (cs : List ℕ) → IsWorst info (worst info s cs) (s ∷ cs)
unfolding worst
worst_lem info s [] = (inl refl, (omega arith, tt))
worst_lem info s (c ∷ cs) = elim (Bool-cases (ltb (info.level s) (info.level c))) [
  | inl over ↦ subst Goal (sym over) (raise _ (ltb→lt _ _ over) (worst_lem info c cs))
  | inr as_is ↦ subst Goal (sym as_is) (keep _ (not_over _ _ as_is) (worst_lem info s cs))
]
  where
    Goal : Bool → Type 0
    Goal b = IsWorst info (worst info (if b then c else s) cs) (s ∷ c ∷ cs)

    not_over : (a b : ℕ) → ltb a b ≡ false → b ≤ a
    not_over a b h = ground arith

    raise :
        (w : ℕ)
        → info.level s < info.level c
        → IsWorst info w (c ∷ cs)
        → IsWorst info w (s ∷ c ∷ cs)
    raise w low (among, (le, rest)) = (inr among, (omega arith, (le, rest)))

    keep :
        (w : ℕ)
        → info.level c ≤ info.level s
        → IsWorst info w (s ∷ cs)
        → IsWorst info w (s ∷ c ∷ cs)
    keep w low (inl e, (le, rest)) = (inl e, (le, (omega arith, rest)))
    keep w low (inr m, (le, rest)) = (inr (inr m), (le, (omega arith, rest)))

-- The state computed for a parent is its own or that of a child, and none of these has a higher
-- level.
pub computed-IsWorst :
    (info : Info) (a : Agent) (f : Forest)
    → IsWorst info (computed info (node a f)) (a.own ∷ states f)
computed-IsWorst info a f = worst_lem info a.own (states f)
