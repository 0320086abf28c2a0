-- ===== src/Alert.antt =====
-- src/library/alert/construct.cc: when an alert is emitted, tried again and given up. An alert is a
-- number, as its address is. Times are in seconds, and the clock of a call a parameter. What an
-- emission does is its result only; the messages are left out. How many tasks the pool accepts before
-- its queue is full is an input of each round.

pub mod Single
pub mod Ends
pub mod Wakeup
pub mod Overlap
mod Examples
use libudjat.Base.{
  ℕ, ◌+◌, ◌-◌, ◌*◌, ◌%◌, ◌^◌, Bool, true, false, not, ◌||◌, List, [], ◌∷◌, ◌++◌, ltb, leb, ◌==◌,
  if◌then◌else◌,
}

-- `retry`, `timers`, `restart` and `activation` of an alert.
pub record Alert : Type 0 where
  pub retry_min : ℕ
  pub retry_max : ℕ
  pub start : ℕ
  pub interval : ℕ
  pub restart_failed : ℕ
  pub restart_success : ℕ
  pub running : Bool
  pub suceeded : ℕ
  pub failed : ℕ
  pub next : ℕ

abbrev pub reset : ℕ → Alert → Alert
reset next a = record a { suceeded = 0; failed = 0; next = next }

abbrev pub is_active : Alert → Bool
is_active a = not (a.next == 0) || a.running

-- `activate()`, before the controller is woken up.
abbrev pub activate : ℕ → Alert → Bool × Alert
activate now a = if is_active a then (false, a) else (true, reset (now + a.start) a)

-- `activate(next)`
abbrev pub activate_at : ℕ → Alert → Alert
activate_at next a = if is_active a then record a { next = next } else reset next a

abbrev pub deactivate : Alert → Bool × Alert
deactivate a = if is_active a then (true, reset 0 a) else (false, a)

-- `success` and `failed`: the counters are unsigned ints.
abbrev pub after_success : ℕ → Alert → Alert
after_success now a =
    if ltb a.suceeded a.retry_min
    then record a { next = now + a.interval }
    else if not (a.restart_success == 0)
    then reset (now + a.restart_success) a
    else reset 0 a

unfoldable pub success : ℕ → Alert → Alert
success now a = after_success now (record a { suceeded = (a.suceeded + 1) % 2 ^ 32 })

abbrev pub after_failed : ℕ → Alert → Alert
after_failed now a =
    if ltb a.failed a.retry_max
    then record a { next = now + a.interval }
    else if not (a.restart_failed == 0)
    then reset (now + a.restart_failed) a
    else reset 0 a

unfoldable pub failed : ℕ → Alert → Alert
failed now a = after_failed now (record a { failed = (a.failed + 1) % 2 ^ 32 })

-- What the result of an emission makes of the alert: 0 is success, and an exception is a failure as
-- any other result is.
abbrev pub emitted : ℕ → ℕ → Alert → Alert
unfolding success failed
emitted now result a = if result == 0 then success now a else failed now a

-- The controller: the alerts, which of them are registered, the emissions that have been pushed and
-- not ended, those that only have to clear `running`, and the timer in milliseconds.
pub record Controller : Type 0 where
  pub alerts : ℕ → Alert
  pub objects : List ℕ
  pub tasks : List ℕ
  pub closing : List ℕ
  pub timer : ℕ

abbrev pub put : (ℕ → Alert) → ℕ → Alert → ℕ → Alert
put alerts x a y = if y == x then a else alerts y

-- `next` of `wakeup`, the alerts, the tasks that are pushed, how many more the pool accepts in this
-- round, and whether `push` has thrown.
pub record Round : Type 0 where
  pub soonest : ℕ
  pub alerts : ℕ → Alert
  pub pushed : List ℕ
  pub room : ℕ
  pub thrown : Bool

abbrev pub min : ℕ → ℕ → ℕ
min a b = if ltb b a then b else a

-- `push`, which throws where the queue of the pool is full.
abbrev pub push : ℕ → Round → Round
push x r =
    if r.room == 0
    then record r { thrown = true }
    else record r { pushed = r.pushed ++ x ∷ []; room = r.room - 1 }

-- The alert is marked before its task is pushed.
abbrev pub emit_alert : ℕ → Round → Round
emit_alert x r =
    push x (record r { alerts = put r.alerts x (record (r.alerts x) { running = true; next = 0 }) })

-- The loop of `wakeup` for an alert.
unfoldable pub visit : ℕ → ℕ → Round → Round
visit now x r =
    if (r.alerts x).next == 0
    then r
    else if leb (r.alerts x).next now
    then emit_alert x r
    else record r { soonest = min r.soonest (r.alerts x).next }

-- An exception leaves the loop.
unfoldable pub visit_all : ℕ → List ℕ → Round → Round
unfolding visit
visit_all now [] r = r
visit_all now (x ∷ xs) r =
    let s = visit now x r in let rest = visit_all now xs s in if s.thrown then s else rest

-- What the loop starts with.
abbrev pub opening : ℕ → ℕ → Controller → Round
opening room now c = record {
  soonest = now + 600;
  alerts = c.alerts;
  pushed = [];
  room = room;
  thrown = false;
}

-- `wakeup`: whether it throws, and the controller then. `room` is how many tasks the pool accepts
-- before it refuses one. An exception comes before `timer->set`.
unfoldable pub wakeup : ℕ → ℕ → Controller → Bool × Controller
unfolding visit_all
wakeup room now c =
    let r = visit_all now c.objects (opening room now c) in
    (
      r.thrown,
      record c {
        alerts = r.alerts;
        tasks = c.tasks ++ r.pushed;
        timer = if r.thrown then c.timer else (r.soonest - now) * 1000;
      },
    )

abbrev pub set_alert : ℕ → Alert → Controller → Controller
set_alert x a c = record c { alerts = put c.alerts x a }

-- One time out of a list.
abbrev pub take_out : ℕ → List ℕ → List ℕ
take_out x [] = []
take_out x (y ∷ ys) = let rest = take_out x ys in if y == x then ys else y ∷ rest

-- The task of an emission: its result, and then the end of it, each before the round that follows.
abbrev pub decided : ℕ → ℕ → ℕ → Controller → Controller
decided x result at c =
    set_alert x (emitted at result (c.alerts x))
      (record c { tasks = take_out x c.tasks; closing = c.closing ++ x ∷ [] })

-- `success` and `failed` are noexcept, as `add` and `remove` of the controller are: an exception of
-- their round ends the program, so that what they give after one is of no use.
unfoldable pub end_emission : ℕ → ℕ → ℕ → ℕ → ℕ → Controller → Bool × Controller
unfolding wakeup
end_emission x result at room now c = wakeup room now (decided x result at c)

abbrev pub closed : ℕ → Controller → Controller
closed x c =
    set_alert x (record (c.alerts x) { running = false })
      (record c { closing = take_out x c.closing })

unfoldable pub close_emission : ℕ → ℕ → ℕ → Controller → Bool × Controller
unfolding wakeup
close_emission x room now c = wakeup room now (closed x c)

-- `Alert::Alert` and `~Alert`
unfoldable pub add : ℕ → Alert → ℕ → ℕ → Controller → Bool × Controller
unfolding wakeup
add x a room now c = wakeup room now (set_alert x a (record c { objects = c.objects ++ x ∷ [] }))

abbrev pub without : ℕ → List ℕ → List ℕ
without x [] = []
without x (y ∷ ys) = let rest = without x ys in if y == x then rest else y ∷ rest

unfoldable pub remove : ℕ → ℕ → ℕ → Controller → Bool × Controller
unfolding wakeup
remove x room now c = wakeup room now (record c { objects = without x c.objects })
