-- ===== src/MainLoop/Calls.antt =====
-- What a pass over the polled entries calls.
use libudjat.Base.{
  ℕ, ◌≤◌, ◌≡◌, refl, sym, ap, subst, inl, inr, true, false, List, [], ◌∷◌, arith, ◌==◌,
  if◌then◌else◌, Bool-cases, length, All, count,
}
use libudjat.MainLoop.{is_listed, Handle, Polled, call_handler, pass, MainLoop}

-- The handlers with events.
abbrev pub ready : List Polled → List ℕ
ready [] = []
ready ((h, revents) ∷ entries) = let rest = ready entries in if revents == 0 then rest else h ∷ rest

abbrev pub polled : List Polled → List ℕ
polled [] = []
polled ((h, revents) ∷ entries) = h ∷ polled entries

pub count-ready :
    (x : ℕ) (entries : List Polled) → count x (ready entries) ≤ count x (polled entries)
count-ready x [] = omega arith
count-ready x ((h, revents) ∷ entries) = ground (arith, count-ready x entries)

pub pass-seen :
    (handle : Handle) (entries : List Polled) (s : MainLoop)
    → (pass handle entries s).seen ≡ length (ready entries)
unfolding pass
pass-seen handle [] s = refl
pass-seen handle ((h, revents) ∷ entries) s =
    ground (
      arith,
      pass-seen handle entries s,
      pass-seen handle entries (call_handler handle h revents s),
    )

pub count-pass :
    (handle : Handle) (x : ℕ) (entries : List Polled) (s : MainLoop)
    → count x (pass handle entries s).calls ≤ count x (ready entries)
unfolding pass
count-pass handle x [] s = omega arith
count-pass handle x ((h, revents) ∷ entries) s = ground (
  arith,
  count-pass handle x entries s,
  count-pass handle x entries (call_handler handle h revents s),
)

-- Nothing is ready: nothing is called.
pub pass-idle :
    (handle : Handle) (entries : List Polled) (s : MainLoop)
    → length (ready entries) ≡ 0
    → ((pass handle entries s).calls ≡ []) × ((pass handle entries s).loop ≡ s)
unfolding pass
pass-idle handle [] s h = (refl, refl)
pass-idle handle ((x, revents) ∷ entries) s h = elim (Bool-cases (revents == 0)) [
  | inl e ↦ rw e (pass-idle handle entries s (rw e at h))
  | inr e ↦ absurd (ground (arith, h, e))
]

-- Handlers that do not throw, and leave the list of the handlers as it is.
abbrev pub AreQuiet : Handle → Type 0
AreQuiet handle =
    (h revents : ℕ) (s : MainLoop)
    → ((handle h revents s).0 ≡ false) × ((handle h revents s).1.handlers ≡ s.handlers)

call_handler-quiet :
    (handle : Handle) (h revents : ℕ) (s : MainLoop)
    → AreQuiet handle
    → (call_handler handle h revents s).handlers ≡ s.handlers
unfolding call_handler
call_handler-quiet handle h revents s q = rw (q h revents s).0 (q h revents s).1

abbrev pub AreListed : List ℕ → List ℕ → Type 0
AreListed hs handlers = All (λ h. is_listed h handlers ≡ true) hs

pub pass-quiet :
    (handle : Handle) (entries : List Polled) (s : MainLoop)
    → AreQuiet handle
    → AreListed (polled entries) s.handlers
    → (pass handle entries s).calls ≡ ready entries
unfolding pass
pass-quiet handle [] s q l = refl
pass-quiet handle ((h, revents) ∷ entries) s q l = elim (Bool-cases (revents == 0)) [
  | inl e ↦ rw e (pass-quiet handle entries s q l.1)
  | inr e ↦
      rw (e, l.0)
        (ap (◌∷◌ h) (
          pass-quiet handle entries (call_handler handle h revents s) q (
            subst (AreListed (polled entries)) (sym (call_handler-quiet handle h revents s q))
              l.1)))
]
