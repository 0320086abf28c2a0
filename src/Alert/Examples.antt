-- ===== src/Alert/Examples.antt =====
-- Tests of Alert.
use libudjat.Base.{ℕ, ◌+◌, ◌*◌, ◌≤◌, ◌<◌, ◌≡◌, refl, ◌⊎◌, true, false, List, [], ◌∷◌, arith, Among}
use libudjat.Alert.{
  is_active, activate, deactivate, emitted, wakeup, end_emission, close_emission, Alert, Controller,
}
use libudjat.Alert.Ends.{cycles, Ends, cycles-is_active, Emission, IsWaiting}
use libudjat.Alert.Wakeup.{wakeup-due_alerts}
use libudjat.Alert.Overlap.{close_emission-overlap, deactivate-emitted, IsHasty}

-- The defaults of the header, due at 1000.
abbrev waiting : Alert
waiting = record {
  retry_min = 1;
  retry_max = 3;
  start = 0;
  interval = 60;
  restart_failed = 0;
  restart_success = 0;
  running = false;
  suceeded = 0;
  failed = 0;
  next = 1000;
}

abbrev controller : Controller
controller = record {
  alerts = λ x. waiting;
  objects = 7 ∷ [];
  tasks = [];
  closing = [];
  timer = 60000;
}

-- A failure, a failure and a success.
abbrev emissions : List Emission
emissions =
    record {
      late = 0;
      result = 5;
      counted = 1002;
      ended = 1003;
      finished = 1003;
      rooms = (1, 0, 0);
    }
    ∷ record {
      late = 3;
      result = 5;
      counted = 1070;
      ended = 1070;
      finished = 1075;
      rooms = (2, 1, 1);
    }
    ∷ record {
      late = 0;
      result = 0;
      counted = 1131;
      ended = 1131;
      finished = 1131;
      rooms = (1, 1, 1);
    }
    ∷ []

waiting-IsWaiting : IsWaiting waiting
waiting-IsWaiting = record {
  min_bound = omega arith;
  max_bound = omega arith;
  no_restart_failed = refl;
  no_restart_success = refl;
  waits = omega arith;
  idle = refl;
  due = omega arith;
  some_success = omega arith;
  some_failed = omega arith;
}

cycles-is_active_example : Ends 7 (cycles 7 emissions controller)
cycles-is_active_example =
    cycles-is_active 7 emissions controller refl waiting-IsWaiting
      (
        (omega arith, omega arith, omega arith),
        ((omega arith, omega arith, omega arith), ((omega arith, omega arith, omega arith), tt)),
      )
      (omega arith)

wakeup-due_alerts_example :
    let (thrown, after) = wakeup 1 1100 controller in
    (thrown ≡ false)
    × (after.tasks ≡ 7 ∷ [])
    × (0 < after.timer)
    × (after.timer ≤ 600000)
    × ((x : ℕ)
        → Among x (7 ∷ [])
        → ((after.alerts x).next ≡ 0) ⊎ (1100 * 1000 + after.timer ≤ (after.alerts x).next * 1000))
wakeup-due_alerts_example = wakeup-due_alerts 1 1100 controller ((λ m. m), tt) (omega arith)

-- A queue that is full leaves the alert running, without a task, and the timer as it was.
wakeup-full :
    let (thrown, after) = wakeup 0 1100 controller in
    (thrown ≡ true)
    × (after.tasks ≡ [])
    × (is_active (after.alerts 7) ≡ true)
    × ((after.alerts 7).next ≡ 0)
    × (after.timer ≡ 60000)
unfolding wakeup
wakeup-full = (refl, refl, refl, refl, refl)

abbrev hasty : Alert
hasty = record waiting { interval = 0; running = true; next = 0 }

abbrev busy : Controller
busy = record controller { alerts = λ x. hasty; tasks = 7 ∷ [] }

hasty-IsHasty : IsHasty hasty
hasty-IsHasty = record { max_bound = omega arith; no_interval = refl; tried = omega arith }

close_emission-overlap_example :
    let (thrown, ended) = end_emission 7 5 1002 1 1002 busy in
    let (again, after) = close_emission 7 0 1003 ended in
    (thrown ≡ false)
    × (again ≡ false)
    × (after.tasks ≡ 7 ∷ [])
    × (is_active (after.alerts 7) ≡ false)
    × ((activate 1003 (after.alerts 7)).0 ≡ true)
close_emission-overlap_example =
    close_emission-overlap 7 5 1002 1 1002 0 1003 busy refl refl hasty-IsHasty (omega arith)
      (omega arith) (omega arith) (omega arith)

deactivate-emitted_example :
    let (confirmed, after) = deactivate hasty in
    (confirmed ≡ true) × (after.next ≡ 0) × ((emitted 1002 5 after).next ≡ 1002 + 0)
deactivate-emitted_example = deactivate-emitted 1002 5 hasty refl (omega arith) (omega arith)
