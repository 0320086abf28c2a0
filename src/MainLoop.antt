-- ===== src/MainLoop.antt =====
-- src/library/tools/mainloop: the handlers of handler.cc, their list in os/linux/mainloop.cc, and a
-- round of the loop of os/linux/run.cc after its `poll`. A handler is a number, as its address is.
-- What poll answers is an input, and what a handler does in `handle_event` a parameter: whether it
-- ends by an exception, and the loop it leaves behind. The locks are left out.

pub mod Calls
pub mod Round
mod Examples
use libudjat.Base.{
  ℕ, zero, suc, ◌+◌, ◌-◌, Bool, true, false, ◌||◌, Option, none, some, List, [], ◌∷◌, ◌++◌, ◌==◌,
  if◌then◌else◌,
}

-- `handlers`, `running`, the `values` of the handlers, the calls of `wakeup`, and the closed
-- descriptors.
pub record MainLoop : Type 0 where
  pub handlers : List ℕ
  pub running : Bool
  pub fd : ℕ → Option ℕ
  pub events : ℕ → ℕ
  pub wakes : ℕ
  pub closed_fds : List ℕ

abbrev pub is_listed : ℕ → List ℕ → Bool
is_listed h [] = false
is_listed h (x ∷ xs) = h == x || is_listed h xs

abbrev pub wake : MainLoop → MainLoop
wake s = record s { wakes = s.wakes + 1 }

abbrev pub push_handler : ℕ → MainLoop → MainLoop
push_handler h s = wake (record s { handlers = s.handlers ++ h ∷ [] })

abbrev pub unlisted : ℕ → List ℕ → List ℕ
unlisted h [] = []
unlisted h (x ∷ xs) = let rest = unlisted h xs in if x == h then rest else x ∷ rest

-- `disable`
unfoldable pub disable_handler : ℕ → MainLoop → MainLoop
disable_handler h s = wake (record s { handlers = unlisted h s.handlers })

unfoldable pub enable_handler : ℕ → MainLoop → Bool × MainLoop
enable_handler h s = if is_listed h s.handlers then (false, s) else (true, push_handler h s)

-- `changed`
abbrev pub changed : ℕ → MainLoop → MainLoop
changed h s = if is_listed h s.handlers then wake s else s

abbrev pub same_fd : Option ℕ → Option ℕ → Bool
same_fd none none = true
same_fd (some a) (some b) = a == b
same_fd _ _ = false

abbrev pub put_fd : ℕ → Option ℕ → (ℕ → Option ℕ) → ℕ → Option ℕ
put_fd h f fds x = if x == h then f else fds x

abbrev pub put_events : ℕ → ℕ → (ℕ → ℕ) → ℕ → ℕ
put_events h e events x = if x == h then e else events x

-- `set(fd)` and `set(events)`
unfoldable pub set_fd : ℕ → Option ℕ → MainLoop → Bool × MainLoop
set_fd h f s =
    if same_fd (s.fd h) f then (false, s) else (true, changed h (record s { fd = put_fd h f s.fd }))

unfoldable pub set_events : ℕ → ℕ → MainLoop → MainLoop
set_events h e s = changed h (record s { events = put_events h e s.events })

-- `close`
abbrev pub close_fd : ℕ → Option ℕ → MainLoop → MainLoop
unfolding disable_handler
close_fd h none s = s
close_fd h (some f) s =
    let t = disable_handler h s in
    record t { fd = put_fd h none t.fd; closed_fds = t.closed_fds ++ f ∷ [] }

unfoldable pub close_handler : ℕ → MainLoop → MainLoop
unfolding close_fd
close_handler h s = close_fd h (s.fd h) s

-- `quit`
abbrev pub quit : MainLoop → MainLoop
quit s = wake (record s { running = false })

-- What `handle_event` of a handler does with the events: whether it throws, and the loop behind it.
abbrev pub Handle : Type 0
Handle = ℕ → ℕ → MainLoop → Bool × MainLoop

-- An entry of the list that was polled, with its `revents`.
abbrev pub Polled : Type 0
Polled = ℕ × ℕ

unfoldable pub call_handler : Handle → ℕ → ℕ → MainLoop → MainLoop
unfolding disable_handler
call_handler handle h revents s =
    let (threw, after) = handle h revents s in if threw then disable_handler h after else after

-- A pass over the entries: how much it takes off `nSocks`, the handlers that are called, and the
-- loop.
pub record Pass : Type 0 where
  pub seen : ℕ
  pub calls : List ℕ
  pub loop : MainLoop

unfoldable pub pass : Handle → List Polled → MainLoop → Pass
unfolding call_handler
pass handle [] s = record { seen = 0; calls = []; loop = s }
pass handle ((h, revents) ∷ entries) s =
    let skipped = pass handle entries s in
    let after = pass handle entries (call_handler handle h revents s) in
    if revents == 0
    then skipped
    else if is_listed h s.handlers
    then record after { seen = 1 + after.seen; calls = h ∷ after.calls }
    else record skipped { seen = 1 + skipped.seen }

-- The loop `while(nSocks > 0)`; the event descriptor is the first entry of each pass, and has no
-- handler. `none` is no fuel.
abbrev pub then_calls : List ℕ → Option (List ℕ × MainLoop) → Option (List ℕ × MainLoop)
then_calls calls none = none
then_calls calls (some (later, last)) = some (calls ++ later, last)

unfoldable pub passes : ℕ → Handle → Bool → List Polled → ℕ → MainLoop → Option (List ℕ × MainLoop)
unfolding pass
passes fuel handle woken entries zero s = some ([], s)
passes zero handle woken entries (suc n) s = none
passes (suc fuel) handle woken entries (suc n) s =
    let done = pass handle entries s in
    then_calls done.calls
      (passes fuel handle woken entries ((suc n - (if woken then 1 else 0)) - done.seen) done.loop)

-- What follows a `poll` that gives `n` descriptors.
unfoldable pub dispatch :
    ℕ → Handle → Bool → List Polled → ℕ → MainLoop → Option (List ℕ × MainLoop)
unfolding passes
dispatch fuel handle woken entries n s =
    passes fuel handle woken entries (n - (if woken then 1 else 0)) s
