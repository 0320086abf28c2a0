-- ===== src/Timer.antt =====
-- src/library/tools/mainloop/os/linux: the timers of timer.cc, the list of the enabled ones of
-- mainloop.cc, and `compute_poll_timeout` of run.cc. A timer is a number, as its address is; times
-- are unsigned longs, in milliseconds. What `on_timer` does besides the timers is not modelled,
-- only whether it ends by an exception; nor is the wake of the loop.
pub mod Next
pub mod Activate
pub mod Poll
pub mod Enabled
pub mod Units
mod Examples
use libudjat.Base.{
  ℕ, ◌+◌, ◌-◌, ◌%◌, ◌^◌, Bool, true, false, ◌||◌, List, [], ◌∷◌, ◌++◌, ltb, leb, ◌==◌,
  if◌then◌else◌, Result, err, ok,
}

pub record Loop : Type 0 where
  pub interval : ℕ → ℕ
  pub activation_time : ℕ → ℕ
  pub enabled : List ℕ

abbrev pub is_enabled : ℕ → List ℕ → Bool
is_enabled timer [] = false
is_enabled timer (x ∷ xs) = timer == x || is_enabled timer xs

abbrev pub put : (ℕ → ℕ) → ℕ → ℕ → ℕ → ℕ
put field timer value x = if x == timer then value else field x

-- `values.activation_time = now + …`
abbrev pub activate_at : ℕ → ℕ → Loop → Loop
activate_at timer time s = record s {
  activation_time = put s.activation_time timer (time % 2 ^ 64);
}

-- `set`: whether the interval changes. A timer that is set to 0 keeps its time.
unfoldable pub set : ℕ → ℕ → ℕ → Loop → Bool × Loop
set now timer milliseconds s = if s.interval timer == milliseconds then (false, s) else (
  true,
  if milliseconds == 0
      then record s { interval = put s.interval timer milliseconds }
      else activate_at timer (now + milliseconds)
          (record s { interval = put s.interval timer milliseconds }),
)

pub data Error : Type 0 where
  invalid_value invalid_unit : Error

-- The constructor with an interval: the fields of a new timer are 0.
unfoldable pub new_timer : ℕ → ℕ → ℕ → Loop → Result Error Loop
unfolding set
new_timer now timer milliseconds s =
    if milliseconds == 0
    then err invalid_value
    else ok
        (set now timer milliseconds (record s {
          interval = put s.interval timer 0;
          activation_time = put s.activation_time timer 0;
        })).1

unfoldable pub enable : ℕ → ℕ → Loop → Bool × Loop
enable now timer s =
    if is_enabled timer s.enabled then (false, activate_at timer (now + s.interval timer) s) else (
      true,
      activate_at timer (now + s.interval timer) (record s { enabled = s.enabled ++ (timer ∷ []) }),
    )

unfoldable pub enable_for : ℕ → ℕ → ℕ → Loop → Bool × Loop
unfolding enable
enable_for now timer milliseconds s =
    enable now timer (record s { interval = put s.interval timer milliseconds })

-- `std::list::remove`
unfoldable pub remove : ℕ → List ℕ → List ℕ
remove timer [] = []
remove timer (x ∷ xs) = let rest = remove timer xs in if timer == x then rest else x ∷ rest

unfoldable pub disable : ℕ → Loop → Loop
unfolding remove
disable timer s = record s { enabled = remove timer s.enabled }

-- `activate`: the next time, or 0. The time is set before `on_timer` is called.
unfoldable pub activate : ℕ → Bool → ℕ → Loop → ℕ × Loop
unfolding disable
activate now throws timer s =
    if s.interval timer == 0
    then (0, disable timer s)
    else if throws
    then (0, disable timer (activate_at timer (now + s.interval timer) s))
    else ((now + s.interval timer) % 2 ^ 64, activate_at timer (now + s.interval timer) s)

abbrev pub min : ℕ → ℕ → ℕ
min a b = if ltb b a then b else a

-- The `for_each` of `compute_poll_timeout`: the expired timers, and the next time of the others.
unfoldable pub expired : ℕ → (ℕ → ℕ) → List ℕ → List ℕ
expired now time [] = []
expired now time (x ∷ xs) =
    let rest = expired now time xs in if leb (time x) now then x ∷ rest else rest

unfoldable pub next_of : ℕ → (ℕ → ℕ) → ℕ → List ℕ → ℕ
next_of now time next [] = next
next_of now time next (x ∷ xs) =
    next_of now time (if leb (time x) now then next else min next (time x)) xs

-- The second loop. `clock` is the time at which each is activated.
unfoldable pub run_expired : (ℕ → ℕ) → (ℕ → Bool) → List ℕ → ℕ → Loop → ℕ × Loop
unfolding activate
run_expired clock throws [] next s = (next, s)
run_expired clock throws (x ∷ xs) next s =
    let (n, after) = activate (clock x) (throws x) x s in
    run_expired clock throws xs (if n == 0 then next else min next n) after

-- The wait for `poll`.
abbrev pub wait_of : ℕ → ℕ → ℕ → ℕ
wait_of now maxwait next = if ltb now next then next - now else maxwait

unfoldable pub compute_poll_timeout : ℕ → ℕ → (ℕ → ℕ) → (ℕ → Bool) → Loop → ℕ × Loop
unfolding expired next_of run_expired
compute_poll_timeout now maxwait clock throws s =
    let (next, after) =
      run_expired clock throws (expired now s.activation_time s.enabled)
        (next_of now s.activation_time ((now + maxwait) % 2 ^ 64) s.enabled) s in
    (wait_of now maxwait next, after)
