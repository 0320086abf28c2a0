-- ===== src/MainLoop/Round.antt =====
-- A round of the main loop.
use libudjat.Base.{
  ℕ, zero, suc, ◌+◌, ◌-◌, ◌≤◌, ◌≡◌, refl, sym, ap, ◌∙◌, inl, inr, Bool, false, Option, none, some,
  List, [], ◌∷◌, append-nil, arith, if◌then◌else◌, Bool-cases, length, count, count-append,
}
use libudjat.MainLoop.{
  is_listed, unlisted, disable_handler, enable_handler, same_fd, set_fd, set_events, close_fd,
  close_handler, Handle, Polled, pass, passes, dispatch, MainLoop,
}
use libudjat.MainLoop.Calls.{
  ready, polled, count-ready, pass-seen, count-pass, pass-idle, AreQuiet, AreListed, pass-quiet,
}

passes_once :
    (fuel : ℕ) (handle : Handle) (woken : Bool) (entries : List Polled) (n : ℕ) (s : MainLoop)
    → n ≡ length (ready entries)
    → passes (suc fuel) handle woken entries n s
      ≡ some ((pass handle entries s).calls, (pass handle entries s).loop)
unfolding passes
passes_once fuel handle woken entries zero s h =
    let (idle, same) = pass-idle handle entries s (omega (arith, h)) in
    ap (λ c. some (c, s)) (sym idle) ∙ ap (λ l. some ((pass handle entries s).calls, l)) (sym same)
passes_once fuel handle woken entries (suc n) s h =
    rw no_more
      (ap (λ c. some (c, (pass handle entries s).loop)) (append-nil (pass handle entries s).calls))
  where
    no_more : (suc n - (if woken then 1 else 0)) - (pass handle entries s).seen ≡ 0
    no_more = ground (arith, h, pass-seen handle entries s)

-- When poll counts the ready handlers, and the event descriptor if it was woken, a round of the
-- main loop takes one pass, whatever the handlers do to the loop: no handler is called without an
-- event, and none more often than it stands in the list that was polled.
pub dispatch-once :
    (handle : Handle) (woken : Bool) (entries : List Polled) (n : ℕ) (s : MainLoop)
    → n ≡ length (ready entries) + (if woken then 1 else 0)
    → (calls : List ℕ) × (last : MainLoop) × (dispatch 1 handle woken entries n s
        ≡ some (calls, last))
      × ((x : ℕ) → count x calls ≤ count x (ready entries))
      × ((x : ℕ) → count x calls ≤ count x (polled entries))
unfolding dispatch
dispatch-once handle woken entries n s h = (
  (pass handle entries s).calls,
  (pass handle entries s).loop,
  passes_once 0 handle woken entries (n - (if woken then 1 else 0)) s (ground (arith, h)),
  (λ x. count-pass handle x entries s),
  λ x. omega (arith, count-pass handle x entries s, count-ready x entries),
)

-- When poll counts the ready handlers, and the event descriptor if it was woken, no handler throws or
-- changes the list, and all that were polled are in it, a round calls the handlers that are ready,
-- each in its turn.
pub dispatch-ready :
    (handle : Handle) (woken : Bool) (entries : List Polled) (n : ℕ) (s : MainLoop)
    → n ≡ length (ready entries) + (if woken then 1 else 0)
    → AreQuiet handle
    → AreListed (polled entries) s.handlers
    → (last : MainLoop) × (dispatch 1 handle woken entries n s ≡ some (ready entries, last))
unfolding dispatch
dispatch-ready handle woken entries n s h q l = (
  (pass handle entries s).loop,
  passes_once 0 handle woken entries (n - (if woken then 1 else 0)) s (ground (arith, h))
      ∙ ap (λ c. some (c, (pass handle entries s).loop)) (pass-quiet handle entries s q l),
)

-- Handlers are listed once, whatever is enabled, disabled and changed.
abbrev pub ListedOnce : MainLoop → Type 0
ListedOnce s = (x : ℕ) → count x s.handlers ≤ 1

not_listed : (h : ℕ) (hs : List ℕ) → is_listed h hs ≡ false → count h hs ≡ 0
not_listed h [] e = refl
not_listed h (x ∷ xs) e = ground (arith, not_listed h xs)

count-unlisted : (x h : ℕ) (hs : List ℕ) → count x (unlisted h hs) ≤ count x hs
count-unlisted x h [] = omega arith
count-unlisted x h (y ∷ ys) = ground (arith, count-unlisted x h ys)

-- An operation on a handler.
pub data Operation : MainLoop → MainLoop → Type 0 where
  enables : (h : ℕ) (s : MainLoop) → Operation s (enable_handler h s).1
  disables : (h : ℕ) (s : MainLoop) → Operation s (disable_handler h s)
  closes : (h : ℕ) (s : MainLoop) → Operation s (close_handler h s)
  sets_fd : (h : ℕ) (f : Option ℕ) (s : MainLoop) → Operation s (set_fd h f s).1
  sets_events : (h e : ℕ) (s : MainLoop) → Operation s (set_events h e s)

-- No operation on handlers puts one into the list that is there.
pub Operation-ListedOnce : {s t : MainLoop} → Operation s t → ListedOnce s → ListedOnce t
unfolding enable_handler disable_handler close_handler close_fd set_fd set_events
Operation-ListedOnce (enables h s) l x = elim (Bool-cases (is_listed h s.handlers)) [
  | inl e ↦ rw e (l x)
  | inr e ↦
      rw e (ground (arith, l x, not_listed h s.handlers e, count-append x s.handlers (h ∷ [])))
]
Operation-ListedOnce (disables h s) l x = omega (arith, l x, count-unlisted x h s.handlers)
Operation-ListedOnce (closes h s) l x = by_fd (s.fd h)
  where
    by_fd : (f : Option ℕ) → count x (close_fd h f s).handlers ≤ 1
    by_fd none = l x
    by_fd (some f) = omega (arith, l x, count-unlisted x h s.handlers)
Operation-ListedOnce (sets_fd h f s) l x = elim (Bool-cases (same_fd (s.fd h) f)) [
  | inl e ↦ rw e (l x)
  | inr e ↦
      rw e (elim (Bool-cases (is_listed h s.handlers)) [ inl f ↦ rw f (l x) | inr f ↦ rw f (l x) ])
]
Operation-ListedOnce (sets_events h e s) l x = elim (Bool-cases (is_listed h s.handlers)) [
  | inl f ↦ rw f (l x)
  | inr f ↦ rw f (l x)
]
