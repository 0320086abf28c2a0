-- ===== src/Agent/Listeners.antt =====
-- src/library/agent/event.cc and push_back.cc: the listeners of an agent. An event is its bits, an
-- activatable its address; each listener that is told is a task for the thread pool.
pub mod Removed
use libudjat.Base.{
  ℕ, zero, suc, ◌/◌, ◌%◌, Bool, true, false, ◌&&◌, Option, none, some, List, [], ◌∷◌, ◌++◌, ◌==◌,
  if◌then◌else◌, Bytes, codes, case_eq,
}

-- `Listener`
pub record Listener : Type 0 where
  pub event : ℕ
  pub activatable : ℕ

-- `event & other`, on the 16 bits of an event.
unfoldable pub bits_meet : ℕ → ℕ → ℕ → Bool
bits_meet zero a b = false
bits_meet (suc n) a b =
    let rest = bits_meet n (a / 2) (b / 2) in if a % 2 == 1 && b % 2 == 1 then true else rest

-- `notify`: the tasks that are pushed.
unfoldable pub notify : ℕ → List Listener → List ℕ
unfolding bits_meet
notify event [] = []
notify event (l ∷ ls) =
    let rest = notify event ls in if bits_meet 16 l.event event then l.activatable ∷ rest else rest

-- The names of the events, with their bits.
abbrev pub event_names : List (Bytes × ℕ)
event_names =
    (codes "started", 1)
    ∷ (codes "start", 1)
    ∷ (codes "stopped", 2)
    ∷ (codes "stop", 2)
    ∷ (codes "state-changed", 4)
    ∷ (codes "update-timer", 8)
    ∷ (codes "value-changed", 16)
    ∷ (codes "value-change", 16)
    ∷ (codes "changed", 16)
    ∷ (codes "value-not-changed", 32)
    ∷ (codes "updated", 48)
    ∷ (codes "ready", 64)
    ∷ (codes "not-ready", 128)
    ∷ (codes "level-changed", 256)
    ∷ (codes "all", 287)
    ∷ []

-- `EventFactory(name)`; `none` is an exception.
unfoldable pub event_loop : Bytes → List (Bytes × ℕ) → Option ℕ
unfolding case_eq
event_loop name [] = none
event_loop name ((n, event) ∷ rest) =
    let later = event_loop name rest in if case_eq n name then some event else later

unfoldable pub event_factory : Bytes → Option ℕ
unfolding event_loop
event_factory [] = none
event_factory (c ∷ cs) = event_loop (c ∷ cs) event_names

-- `push_back(event,activatable)`
abbrev pub add_listener : ℕ → ℕ → List Listener → List Listener
add_listener event x ls = ls ++ record { event = event; activatable = x } ∷ []

-- `remove(event,activatable)`
abbrev pub remove_event : ℕ → ℕ → List Listener → List Listener
remove_event event x [] = []
remove_event event x (l ∷ ls) =
    let rest = remove_event event x ls in
    if l.event == event && l.activatable == x then rest else l ∷ rest

-- `remove(activatable)`
abbrev pub remove_listener : ℕ → List Listener → List Listener
remove_listener x [] = []
remove_listener x (l ∷ ls) =
    let rest = remove_listener x ls in if l.activatable == x then rest else l ∷ rest
