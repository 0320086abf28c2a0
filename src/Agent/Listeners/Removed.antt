-- ===== src/Agent/Listeners/Removed.antt =====
-- What an event runs once listeners are added or removed.
use libudjat.Base.{
  ℕ, ◌≡◌, refl, ap, Bool, true, false, List, [], ◌∷◌, arith, ◌==◌, if◌then◌else◌, count,
}
use libudjat.Agent.Listeners.{bits_meet, notify, remove_listener, Listener}

-- The tasks of others.
abbrev pub without : ℕ → List ℕ → List ℕ
without x [] = []
without x (y ∷ ys) = let rest = without x ys in if y == x then rest else y ∷ rest

-- When an activatable is removed, an event runs what it ran before, in the same order, but for this
-- activatable; so the activatable is not run.
pub notify-remove_listener :
    (event x : ℕ) (ls : List Listener)
    → (notify event (remove_listener x ls) ≡ without x (notify event ls))
      × (count x (notify event (remove_listener x ls)) ≡ 0)
unfolding notify
notify-remove_listener event x [] = (refl, refl)
notify-remove_listener event x (l ∷ ls) =
    by_test (l.activatable == x) refl (notify-remove_listener event x ls)
  where
    Holds : List ℕ → List ℕ → Type 0
    Holds after before = (after ≡ without x before) × (count x after ≡ 0)

    told_kept :
        (told : Bool)
        → l.activatable == x ≡ false
        → (after before : List ℕ) → Holds after before
        → Holds
            (if told then l.activatable ∷ after else after)
            (if told then l.activatable ∷ before else before)
    told_kept false e after before h = h
    told_kept true e after before h = rw e (ap (◌∷◌ l.activatable) h.0, omega (arith, h.1))

    told_removed :
        (told : Bool)
        → l.activatable == x ≡ true
        → (after before : List ℕ) → Holds after before
        → Holds after (if told then l.activatable ∷ before else before)
    told_removed false e after before h = h
    told_removed true e after before h = rw e h

    by_test :
        (same : Bool)
        → l.activatable == x ≡ same
        → Holds (notify event (remove_listener x ls)) (notify event ls)
        → Holds
            (notify event (if same then remove_listener x ls else l ∷ remove_listener x ls))
            (notify event (l ∷ ls))
    by_test true e h =
        told_removed (bits_meet 16 l.event event) e (notify event (remove_listener x ls))
          (notify event ls) h
    by_test false e h =
        told_kept (bits_meet 16 l.event event) e (notify event (remove_listener x ls))
          (notify event ls) h
