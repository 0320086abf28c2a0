-- ===== src/Alert/Ends.antt =====
-- An alert that is not restarted is given up after enough emissions.
use libudjat.Base.{
  ℕ, ◌+◌, ◌-◌, ◌^◌, ◌≤◌, ◌<◌, ◌≡◌, refl, sym, ap, subst, ◌∙◌, ◌⊎◌, inl, inr, Bool, true, false,
  Option, none, some, List, [], ◌∷◌, arith, if◌then◌else◌, length, All,
}
use libudjat.Alert.Single.{
  Holds, Gives, NotDue, wakeup-due, end_emission-alert, close_emission-alert,
}
use libudjat.Alert.{
  is_active, success, failed, emitted, wakeup, end_emission, close_emission, Alert, Controller,
}

-- An emission: how long after the time of the alert the controller wakes up, the result, the clock
-- when this is counted, of the round after that and of the last one, and how many tasks the pool
-- accepts in each round.
pub record Emission : Type 0 where
  pub late : ℕ
  pub result : ℕ
  pub counted : ℕ
  pub ended : ℕ
  pub finished : ℕ
  pub rooms : ℕ × ℕ × ℕ

-- A round that throws comes to no good end.
abbrev pub unless_thrown : Bool × Controller → Option Controller
unless_thrown (thrown, c) = if thrown then none else some c

abbrev pub go_on : Option Controller → (Controller → Option Controller) → Option Controller
go_on none f = none
go_on (some c) f = f c

-- The controller wakes up, the task that it pushes ends, and `running` is finished.
unfoldable pub cycle : ℕ → Emission → Controller → Option Controller
unfolding wakeup end_emission close_emission
cycle x e c =
    let (first, second, third) = e.rooms in
    go_on
      (go_on (unless_thrown (wakeup first ((c.alerts x).next + e.late) c))
        (λ begun. unless_thrown (end_emission x e.result e.counted second e.ended begun)))
      (λ ended. unless_thrown (close_emission x third e.finished ended))

-- One emission after the other, while the alert is active.
unfoldable pub cycles : ℕ → List Emission → Controller → Option Controller
unfolding cycle
cycles x [] c = some c
cycles x (e ∷ es) c = elim (is_active (c.alerts x)) [
  | true ↦ go_on (cycle x e c) (cycles x es)
  | false ↦ some c
]

-- The pool accepts the task, and the rounds after the emission come before the next try.
abbrev pub IsPrompt : ℕ → Emission → Type 0
IsPrompt interval e =
    (0 < e.rooms.0) × (e.ended < e.counted + interval) × (e.finished < e.counted + interval)

-- An alert that waits for its next emission, and is never restarted.
pub record IsWaiting (a : Alert) : Type 0 where
  pub min_bound : a.retry_min < 2 ^ 32
  pub max_bound : a.retry_max < 2 ^ 32
  pub no_restart_failed : a.restart_failed ≡ 0
  pub no_restart_success : a.restart_success ≡ 0
  pub waits : 0 < a.interval
  pub idle : a.running ≡ false
  pub due : 0 < a.next
  pub some_success : a.suceeded < a.retry_min
  pub some_failed : a.failed < a.retry_max

-- What the emission makes of the alert.
abbrev pub once : Emission → Alert → Alert
once e a = record (emitted e.counted e.result (record a { running = true; next = 0 })) {
  running = false;
}

-- The emissions that are left.
abbrev pub left : Alert → ℕ
left a = (a.retry_min - a.suceeded) + (a.retry_max - a.failed)

once-IsWaiting :
    (e : Emission) (a : Alert)
    → IsWaiting a
    → (is_active (once e a) ≡ false) ⊎ (IsWaiting (once e a) × (left (once e a) + 1 ≡ left a))
unfolding success failed
once-IsWaiting e a h = ground arith

once_interval : (e : Emission) (a : Alert) → (once e a).interval ≡ a.interval
unfolding success failed
once_interval e a = ground arith

-- What an emission leaves is not due before the next try.
emitted-NotDue :
    (e : Emission) (a : Alert) (now : ℕ)
    → IsWaiting a
    → now < e.counted + a.interval
    → NotDue now (once e a)
unfolding success failed
emitted-NotDue e a now w h = ground arith

unless_thrown-Gives :
    (x : ℕ) (p : Bool × Controller) (a : Alert)
    → Gives x p a
    → (unless_thrown p ≡ some p.1) × (p.1.alerts x ≡ a) × Holds x p.1
unless_thrown-Gives x (thrown, c) a (t, e, h) = (rw t refl, e, h)

cycle-alert :
    (x : ℕ) (e : Emission) (c : Controller)
    → Holds x c
    → IsWaiting (c.alerts x)
    → IsPrompt (c.alerts x).interval e
    → (after : Controller) × (cycle x e c ≡ some after)
      × (after.alerts x ≡ once e (c.alerts x))
      × Holds x after
unfolding cycle
cycle-alert x e c h w (room, soon, sooner) =
    let a = c.alerts x in
    let first = wakeup e.rooms.0 (a.next + e.late) c in
    let (go, due, held) =
      unless_thrown-Gives x first (record a { running = true; next = 0 })
        (wakeup-due x e.rooms.0 (a.next + e.late) c h room w.due (omega arith)) in
    let second = end_emission x e.result e.counted e.rooms.1 e.ended first.1 in
    let (on, run, holds) =
      unless_thrown-Gives x second
        (emitted e.counted e.result (record a { running = true; next = 0 }))
        (end_emission-alert x e.result e.counted e.rooms.1 e.ended first.1 _ held due
          (emitted-NotDue e a e.ended w soon)) in
    let third = close_emission x e.rooms.2 e.finished second.1 in
    let (last, idle, kept) = unless_thrown-Gives x third (once e a) (
      close_emission-alert x e.rooms.2 e.finished second.1 _ holds run
        (emitted-NotDue e a e.finished w sooner)) in
    (third.1, rw (go, on) last, idle, kept)

waiting-is_active : (a : Alert) → IsWaiting a → is_active a ≡ true
waiting-is_active a w = ground arith

not_few : (a : Alert) → IsWaiting a → ¬ (left a ≤ 1)
not_few a w = omega (arith, w.some_success, w.some_failed)

-- All emissions come to their end, and leave the alert not active.
abbrev pub Ends : ℕ → Option Controller → Type 0
Ends x o = (after : Controller) × (o ≡ some after) × (is_active (after.alerts x) ≡ false)

cycles-inactive :
    (x : ℕ) (es : List Emission) (c : Controller)
    → is_active (c.alerts x) ≡ false
    → Ends x (cycles x es c)
unfolding cycles
cycles-inactive x [] c h = (c, refl, h)
cycles-inactive x (e ∷ es) c h = (c, rw (h, cycles) refl, h)

cycles_step :
    (x : ℕ) (e : Emission) (es : List Emission) (c after : Controller)
    → is_active (c.alerts x) ≡ true
    → cycle x e c ≡ some after
    → cycles x (e ∷ es) c ≡ cycles x es after
unfolding cycles
cycles_step x e es c after h k = rw (h, cycles) (rw k refl)

-- An alert that is registered alone and waits for an emission, with a retry interval that is not 0
-- and no restart time, is not active any more after `left` less one emissions at most, and no round
-- has thrown, whatever the results are and however late the emissions begin, where the pool accepts
-- their tasks and the rounds after an emission come before its next try: each emission makes the
-- alert nearer to `retry_min` successes or to `retry_max` failures.
pub cycles-is_active :
    (x : ℕ) (es : List Emission) (c : Controller)
    → Holds x c
    → IsWaiting (c.alerts x)
    → All (IsPrompt (c.alerts x).interval) es
    → left (c.alerts x) ≤ length es + 1
    → Ends x (cycles x es c)
cycles-is_active x [] c h w p l = absurd (not_few (c.alerts x) w l)
cycles-is_active x (e ∷ es) c h w p l =
    let (after, runs, same, held) = cycle-alert x e c h w p.0 in
    let step = cycles_step x e es c after (waiting-is_active (c.alerts x) w) runs in
    subst (Ends x) (sym step) (elim (once-IsWaiting e (c.alerts x) w) [
      | inl f ↦ cycles-inactive x es after (ap is_active same ∙ f)
      | inr (v, k) ↦
          cycles-is_active x es after held (subst IsWaiting (sym same) v)
            (subst (λ n. All (IsPrompt n) es)
              (sym (ap (λ a. a.interval) same ∙ once_interval e (c.alerts x))) p.1)
            (subst (λ a. left a ≤ length es + 1) (sym same) (omega (arith, k, l)))
    ])
