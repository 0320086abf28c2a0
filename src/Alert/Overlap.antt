-- ===== src/Alert/Overlap.antt =====
-- Emissions that overlap, and what deactivating a running alert is worth.
use libudjat.Base.{
  ℕ, ◌+◌, ◌^◌, ◌≤◌, ◌<◌, ◌≡◌, refl, ap, ◌∙◌, inl, true, false, [], ◌∷◌, ◌++◌, arith, ==_refl,
  length,
}
use libudjat.Alert.{
  is_active, activate, deactivate, success, failed, emitted, wakeup, take_out, decided,
  end_emission, closed, close_emission, Alert, Controller,
}
use libudjat.Alert.Single.{Holds, Gives, wakeup-due, wakeup-idle, put_self}
use libudjat.Alert.Wakeup.{due, wakeup-due_alerts}

-- An alert whose emission runs, that is to be tried again at once.
pub record IsHasty (a : Alert) : Type 0 where
  pub max_bound : a.retry_max < 2 ^ 32
  pub no_interval : a.interval ≡ 0
  pub tried : a.failed + 1 < a.retry_max

emitted-hasty :
    (at result : ℕ) (a : Alert) → IsHasty a → 0 < result → 0 < at → (emitted at result a).next ≡ at
unfolding failed success
emitted-hasty at result a h k l = ground arith

due_alone :
    (now x : ℕ) (alerts : ℕ → Alert)
    → 0 < (alerts x).next
    → (alerts x).next ≤ now
    → due now alerts (x ∷ []) ≡ x ∷ []
due_alone now x alerts h k = ground arith

due_none : (now x : ℕ) (alerts : ℕ → Alert) → (alerts x).next ≡ 0 → due now alerts (x ∷ []) ≡ []
due_none now x alerts h = ground arith

take_out_alone : (x : ℕ) → take_out x (x ∷ []) ≡ []
take_out_alone x = rw ==_refl

-- What a round does to the tasks, when one alert is registered.
wakeup-tasks :
    (x room now : ℕ) (c : Controller)
    → Holds x c
    → length (due now c.alerts (x ∷ [])) ≤ room
    → (wakeup room now c).1.tasks ≡ c.tasks ++ due now c.alerts (x ∷ [])
wakeup-tasks x room now c h l = (wakeup-due_alerts room now c (rw h (λ m. m, tt)) (rw h l)).1 ∙ rw h

-- When the only emission of an alert that is registered alone, without a retry interval, fails and
-- may be tried again, the round that follows the failure, not before its time, pushes the next
-- emission, which the pool accepts, and the end of the first then clears `running`: the next emission is pending, and yet
-- the alert is not active, so that `activate` begins another one.
pub close_emission-overlap :
    (x result at room now more later : ℕ) (c : Controller)
    → Holds x c
    → c.tasks ≡ x ∷ []
    → IsHasty (c.alerts x)
    → 0 < result
    → 0 < at
    → at ≤ now
    → 0 < room
    → let (thrown, ended) = end_emission x result at room now c in
      let (again, after) = close_emission x more later ended in
      (thrown ≡ false)
      × (again ≡ false)
      × (after.tasks ≡ x ∷ [])
      × (is_active (after.alerts x) ≡ false)
      × ((activate later (after.alerts x)).0 ≡ true)
unfolding close_emission end_emission
close_emission-overlap x result at room now more later c h k a m n o space = (
  begun.0,
  idle.0,
  wakeup-tasks x more later (closed x ended) h (rw none_due (omega arith))
      ∙ rw (pushed, none_due) refl,
  ap is_active idle.1,
  ap (λ b. (activate later b).0) idle.1,
)
  where
    before : Controller
    before = decided x result at c

    ended : Controller
    ended = (end_emission x result at room now c).1

    again : (before.alerts x).next ≡ at
    again =
        ap (λ b. b.next) (put_self c.alerts x (emitted at result (c.alerts x)))
        ∙ (emitted-hasty at result (c.alerts x) a m n)

    begun : Gives x (wakeup room now before) (record (before.alerts x) { running = true; next = 0 })
    begun = wakeup-due x room now before h space (rw again n) (rw again o)

    alone : due now before.alerts (x ∷ []) ≡ x ∷ []
    alone = due_alone now x before.alerts (rw again n) (rw again o)

    pushed : ended.tasks ≡ x ∷ []
    pushed =
        wakeup-tasks x room now before h (rw (alone) space)
        ∙ ap (λ l. take_out x l ++ due now before.alerts (x ∷ [])) k
        ∙ ap (λ l. l ++ due now before.alerts (x ∷ [])) (take_out_alone x)
        ∙ alone

    cleared : (closed x ended).alerts x ≡ record (before.alerts x) { running = false; next = 0 }
    cleared =
        put_self ended.alerts x (record (ended.alerts x) { running = false })
        ∙ ap {A = Alert} (λ b. record b { running = false }) begun.1

    none_due : due later (closed x ended).alerts (x ∷ []) ≡ []
    none_due = due_none later x (closed x ended).alerts (ap (λ b. b.next) cleared)

    idle :
        Gives x
          (close_emission x more later ended)
          (record (before.alerts x) { running = false; next = 0 })
    idle =
        wakeup-idle x more later (closed x ended)
          (record (before.alerts x) { running = false; next = 0 }) h (inl refl) cleared

-- Deactivating an active alert is confirmed, but while its emission runs, it only lasts until the
-- emission ends: if this fails and there may be two failures or more, the next emission is
-- scheduled again.
pub deactivate-emitted :
    (now result : ℕ) (a : Alert)
    → a.running ≡ true
    → 0 < result
    → 1 < a.retry_max
    → let (confirmed, after) = deactivate a in
      (confirmed ≡ true) × (after.next ≡ 0) × ((emitted now result after).next ≡ now + a.interval)
unfolding failed success
deactivate-emitted now result a h k l = ground arith
