-- ===== src/Alert/Single.antt =====
-- What a round of the controller does to an alert that is registered alone.
use libudjat.Base.{
  ℕ, ◌≤◌, ◌<◌, ◌≡◌, refl, sym, ap, subst, ◌∙◌, ◌⊎◌, inl, inr, Bool, true, false, [], ◌∷◌, arith,
  ==_refl, Bool-cases,
}
use libudjat.Alert.{
  emitted, put, visit, visit_all, opening, wakeup, decided, end_emission, closed, close_emission,
  Alert, Controller, Round,
}

-- A controller with this alert only.
abbrev pub Holds : ℕ → Controller → Type 0
Holds x c = c.objects ≡ x ∷ []

-- What a round does to an alert that is registered alone.
abbrev pub Gives : ℕ → Bool × Controller → Alert → Type 0
Gives x (thrown, after) a = (thrown ≡ false) × (after.alerts x ≡ a) × Holds x after

visit_all-one : (now x : ℕ) (r : Round) → visit_all now (x ∷ []) r ≡ visit now x r
unfolding visit_all
visit_all-one now x r = elim (Bool-cases (visit now x r).thrown) [
  | inl e ↦ rw e refl
  | inr e ↦ rw e refl
]

visit-due :
    (x now : ℕ) (r : Round)
    → r.thrown ≡ false
    → 0 < r.room
    → 0 < (r.alerts x).next
    → (r.alerts x).next ≤ now
    → ((visit now x r).thrown ≡ false)
      × ((visit now x r).alerts x ≡ record (r.alerts x) { running = true; next = 0 })
unfolding visit
visit-due x now r t n h k = ground arith

-- A round does not emit the alert.
abbrev pub NotDue : ℕ → Alert → Type 0
NotDue now a = (a.next ≡ 0) ⊎ (now < a.next)

visit-idle :
    (x now : ℕ) (r : Round)
    → r.thrown ≡ false
    → NotDue now (r.alerts x)
    → ((visit now x r).thrown ≡ false) × ((visit now x r).alerts x ≡ r.alerts x)
unfolding visit
visit-idle x now r t h = ground arith

wakeup-visit :
    (x room now : ℕ) (c : Controller) (a : Alert)
    → Holds x c
    → ((visit now x (opening room now c)).thrown ≡ false)
      × ((visit now x (opening room now c)).alerts x ≡ a)
    → Gives x (wakeup room now c) a
unfolding wakeup
wakeup-visit x room now c a h (t, e) =
    let one =
      ap (λ xs. visit_all now xs (opening room now c)) h
      ∙ visit_all-one now x (opening room now c) in
    (ap (λ r. r.thrown) one ∙ t, ap (λ r. r.alerts x) one ∙ e, h)

pub wakeup-due :
    (x room now : ℕ) (c : Controller)
    → Holds x c
    → 0 < room
    → 0 < (c.alerts x).next
    → (c.alerts x).next ≤ now
    → Gives x (wakeup room now c) (record (c.alerts x) { running = true; next = 0 })
wakeup-due x room now c h n k l =
    wakeup-visit x room now c _ h (visit-due x now (opening room now c) refl n k l)

pub wakeup-idle :
    (x room now : ℕ) (c : Controller) (a : Alert)
    → Holds x c
    → NotDue now a
    → c.alerts x ≡ a
    → Gives x (wakeup room now c) a
wakeup-idle x room now c a h k e =
    let (t, same) = visit-idle x now (opening room now c) refl (subst (NotDue now) (sym e) k) in
    wakeup-visit x room now c a h (t, same ∙ e)

pub put_self : (alerts : ℕ → Alert) (x : ℕ) (a : Alert) → put alerts x a x ≡ a
put_self alerts x a = rw ==_refl

pub end_emission-alert :
    (x result at room now : ℕ) (c : Controller) (a : Alert)
    → Holds x c
    → c.alerts x ≡ a
    → NotDue now (emitted at result a)
    → Gives x (end_emission x result at room now c) (emitted at result a)
unfolding end_emission
end_emission-alert x result at room now c a h e k =
    wakeup-idle x room now (decided x result at c) (emitted at result a) h k
      (put_self c.alerts x _ ∙ ap (emitted at result) e)

pub close_emission-alert :
    (x room now : ℕ) (c : Controller) (a : Alert)
    → Holds x c
    → c.alerts x ≡ a
    → NotDue now a
    → Gives x (close_emission x room now c) (record a { running = false })
unfolding close_emission
close_emission-alert x room now c a h e k =
    wakeup-idle x room now (closed x c) (record a { running = false }) h k
      (put_self c.alerts x _ ∙ ap {A = Alert} (λ b. record b { running = false }) e)
