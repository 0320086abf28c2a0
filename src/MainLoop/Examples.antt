-- ===== src/MainLoop/Examples.antt =====
-- Tests of MainLoop.
use libudjat.Base.{
  ℕ, ◌+◌, ◌≤◌, ◌≡◌, refl, true, false, Option, none, some, List, [], ◌∷◌, ◌==◌, if◌then◌else◌,
  count,
}
use libudjat.MainLoop.{close_handler, Handle, Polled, dispatch, MainLoop}
use libudjat.MainLoop.Round.{dispatch-once, dispatch-ready}

abbrev loop_of : List ℕ → MainLoop
loop_of hs = record {
  handlers = hs;
  running = true;
  fd = λ x. some (x + 10);
  events = λ x. 1;
  wakes = 0;
  closed_fds = [];
}

-- Handler 1 closes handler 3, 2 throws, and the others do nothing.
abbrev mixed : Handle
unfolding close_handler
mixed h revents s = if h == 1 then (false, close_handler 3 s) else (h == 2, s)

abbrev entries : List Polled
entries = (1, 1) ∷ (2, 1) ∷ (3, 1) ∷ (4, 0) ∷ (5, 1) ∷ []

abbrev calls_of : Option (List ℕ × MainLoop) → List ℕ
calls_of none = []
calls_of (some (calls, last)) = calls

mixed_calls :
    calls_of (dispatch 1 mixed true entries 5 (loop_of (1 ∷ 2 ∷ 3 ∷ 4 ∷ 5 ∷ []))) ≡ 1 ∷ 2 ∷ 5 ∷ []
unfolding dispatch close_handler
mixed_calls = refl

dispatch-once_example :
    (calls : List ℕ) × (last : MainLoop) × (dispatch 1 mixed true entries 5
        (loop_of (1 ∷ 2 ∷ 3 ∷ 4 ∷ 5 ∷ []))
      ≡ some (calls, last))
    × ((x : ℕ) → count x calls ≤ count x (1 ∷ 2 ∷ 3 ∷ 5 ∷ []))
    × ((x : ℕ) → count x calls ≤ count x (1 ∷ 2 ∷ 3 ∷ 4 ∷ 5 ∷ []))
dispatch-once_example = dispatch-once mixed true entries 5 (loop_of (1 ∷ 2 ∷ 3 ∷ 4 ∷ 5 ∷ [])) refl

abbrev silent : Handle
silent h revents s = (false, s)

dispatch-ready_example :
    (last : MainLoop) × (dispatch 1 silent true entries 5 (loop_of (5 ∷ 4 ∷ 3 ∷ 2 ∷ 1 ∷ []))
      ≡ some (1 ∷ 2 ∷ 3 ∷ 5 ∷ [], last))
dispatch-ready_example =
    dispatch-ready silent true entries 5 (loop_of (5 ∷ 4 ∷ 3 ∷ 2 ∷ 1 ∷ [])) refl
      (λ h r s. (refl, refl)) (refl, (refl, (refl, (refl, (refl, tt)))))
