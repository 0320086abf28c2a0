-- ===== src/Alert/Wakeup.antt =====
-- What a round of the controller pushes, and how long it waits for the next one.
use libudjat.Base.{
  ℕ, ◌+◌, ◌-◌, ◌*◌, ◌≤◌, ◌<◌, ◌≡◌, refl, sym, ap, subst, ◌∙◌, ◌≢◌, ◌⊎◌, inl, inr, Bool, false, not,
  ◌&&◌, List, [], ◌∷◌, ◌++◌, append-nil, append_assoc, arith, leb, ◌==◌, if◌then◌else◌, Bool-cases,
  length, length-append, Among, all,
}
use libudjat.Alert.{visit, visit_all, opening, wakeup, Alert, Controller, Round}

abbrev pub Later : ℕ → Round → Type 0
Later x r = ((r.alerts x).next ≡ 0) ⊎ (r.soonest ≤ (r.alerts x).next)

visit-soonest :
    (now x : ℕ) (r : Round)
    → now < r.soonest
    → (now < (visit now x r).soonest) × ((visit now x r).soonest ≤ r.soonest)
unfolding visit
visit-soonest now x r h = ground arith

visit-Later : (now x : ℕ) (r : Round) → Later x (visit now x r)
unfolding visit
visit-Later now x r = ground arith

visit-Later_other : (now x y : ℕ) (r : Round) → Later y r → Later y (visit now x r)
unfolding visit
visit-Later_other now x y r h = ground arith

-- The loop without its exit.
abbrev visit_each : ℕ → List ℕ → Round → Round
visit_each now [] r = r
visit_each now (x ∷ xs) r = visit_each now xs (visit now x r)

visit_each-soonest :
    (now : ℕ) (xs : List ℕ) (r : Round)
    → now < r.soonest
    → (now < (visit_each now xs r).soonest) × ((visit_each now xs r).soonest ≤ r.soonest)
visit_each-soonest now [] r h = (h, omega arith)
visit_each-soonest now (x ∷ xs) r h =
    let (later, le) = visit-soonest now x r h in
    let (late, less) = visit_each-soonest now xs (visit now x r) later in
    (late, omega (arith, le, less))

visit_each-Later :
    (now : ℕ) (xs : List ℕ) (r : Round) (y : ℕ)
    → Among y xs ⊎ Later y r
    → Later y (visit_each now xs r)
visit_each-Later now [] r y (inl m) = absurd m
visit_each-Later now [] r y (inr h) = h
visit_each-Later now (x ∷ xs) r y (inl (inl e)) =
    visit_each-Later now xs (visit now x r) y
      (inr (subst (λ z. Later z (visit now x r)) (sym e) (visit-Later now x r)))
visit_each-Later now (x ∷ xs) r y (inl (inr m)) = visit_each-Later now xs (visit now x r) y (inl m)
visit_each-Later now (x ∷ xs) r y (inr h) =
    visit_each-Later now xs (visit now x r) y (inr (visit-Later_other now x y r h))

-- The alerts of the list that are due, each with what the round makes of it.
abbrev is_due : ℕ → Alert → Bool
is_due now a = not (a.next == 0) && leb a.next now

abbrev pub due : ℕ → (ℕ → Alert) → List ℕ → List ℕ
due now alerts [] = []
due now alerts (x ∷ xs) =
    let rest = due now alerts xs in if is_due now (alerts x) then x ∷ rest else rest

due_same :
    (now : ℕ) (before after : ℕ → Alert) (xs : List ℕ)
    → ((y : ℕ) → Among y xs → after y ≡ before y)
    → due now after xs ≡ due now before xs
due_same now before after [] h = refl
due_same now before after (x ∷ xs) h =
    rw (h x (inl refl), due_same now before after xs (λ y m. h y (inr m)))

visit-pushed :
    (now x : ℕ) (r : Round)
    → length (due now r.alerts (x ∷ [])) ≤ r.room
    → (visit now x r).pushed ≡ r.pushed ++ due now r.alerts (x ∷ [])
unfolding visit
visit-pushed now x r h = ground (arith, append-nil r.pushed)

-- While there is room, no push throws, and each takes a place.
visit-room :
    (now x : ℕ) (r : Round)
    → r.thrown ≡ false
    → length (due now r.alerts (x ∷ [])) ≤ r.room
    → ((visit now x r).thrown ≡ false)
      × ((visit now x r).room + length (due now r.alerts (x ∷ [])) ≡ r.room)
unfolding visit
visit-room now x r t h = ground arith

visit_other : (now x y : ℕ) (r : Round) → y ≢ x → (visit now x r).alerts y ≡ r.alerts y
unfolding visit
visit_other now x y r h = ground arith

abbrev pub Once : List ℕ → Type 0
Once [] = Unit
Once (x ∷ xs) = (¬ (Among x xs)) × Once xs

due_first :
    (now : ℕ) (alerts : ℕ → Alert) (x : ℕ) (xs : List ℕ)
    → due now alerts (x ∷ []) ++ due now alerts xs ≡ due now alerts (x ∷ xs)
due_first now alerts x xs = elim (Bool-cases (is_due now (alerts x))) [
  | inl e ↦ rw e
  | inr e ↦ rw e
]

due_length :
    (now : ℕ) (alerts : ℕ → Alert) (x : ℕ) (xs : List ℕ)
    → length (due now alerts (x ∷ [])) + length (due now alerts xs)
      ≡ length (due now alerts (x ∷ xs))
due_length now alerts x xs =
    sym (length-append (due now alerts (x ∷ [])) (due now alerts xs))
    ∙ ap length (due_first now alerts x xs)

unvisited :
    (now x : ℕ) (xs : List ℕ) (r : Round)
    → ¬ (Among x xs)
    → due now (visit now x r).alerts xs ≡ due now r.alerts xs
unvisited now x xs r h =
    due_same now r.alerts (visit now x r).alerts xs
      (λ y m. visit_other now x y r (λ e. h (subst (λ z. Among z xs) e m)))

-- With room for all that are due, the loop runs through, and pushes them.
visit_all-each :
    (now : ℕ) (xs : List ℕ) (r : Round)
    → Once xs
    → r.thrown ≡ false
    → length (due now r.alerts xs) ≤ r.room
    → (visit_all now xs r ≡ visit_each now xs r)
      × ((visit_each now xs r).thrown ≡ false)
      × ((visit_each now xs r).pushed ≡ r.pushed ++ due now r.alerts xs)
unfolding visit_all
visit_all-each now [] r h t l = (refl, t, sym (append-nil r.pushed))
visit_all-each now (x ∷ xs) r h t l =
    let (calm, place) = visit-room now x r t (omega (arith, l, due_length now r.alerts x xs)) in
    let same = unvisited now x xs r h.0 in
    let (all, done, rest) =
      visit_all-each now xs (visit now x r) h.1 calm
        (omega (arith, l, place, ap length same, due_length now r.alerts x xs)) in
    (
      rw calm all,
      done,
      rest
          ∙ rw
              (
                visit-pushed now x r (omega (arith, l, due_length now r.alerts x xs)),
                same,
                append_assoc r.pushed (due now r.alerts (x ∷ [])) (due now r.alerts xs),
                due_first now r.alerts x xs,
              )
              refl,
    )

-- Where no alert is registered twice and the pool accepts as many tasks as alerts are due, a round
-- pushes the emission of every registered alert that is due, in the order of registration and no
-- other, does not throw, and sets the timer to some time, of ten minutes at most, before whose end no
-- registered alert that is scheduled is due.
pub wakeup-due_alerts :
    (room now : ℕ) (c : Controller)
    → Once c.objects
    → length (due now c.alerts c.objects) ≤ room
    → let (thrown, after) = wakeup room now c in
      (thrown ≡ false)
      × (after.tasks ≡ c.tasks ++ due now c.alerts c.objects)
      × (0 < after.timer)
      × (after.timer ≤ 600000)
      × ((x : ℕ)
          → Among x c.objects
          → ((after.alerts x).next ≡ 0) ⊎ (now * 1000 + after.timer ≤ (after.alerts x).next * 1000))
unfolding wakeup
wakeup-due_alerts room now c h l =
    let (all, done, pushed) = visit_all-each now c.objects (opening room now c) h refl l in
    let (later, le) = visit_each-soonest now c.objects (opening room now c) (omega arith) in
    rw (all, done)
      (
        refl,
        ap (λ l. c.tasks ++ l) pushed,
        omega (arith, later),
        omega (arith, le),
        λ x m. in_time x (visit_each-Later now c.objects (opening room now c) x (inl m)) later,
      )
  where
    r : Round
    r = visit_each now c.objects (opening room now c)

    in_time :
        (x : ℕ)
        → Later x r
        → now < r.soonest
        → ((r.alerts x).next ≡ 0)
          ⊎ (now * 1000 + (r.soonest - now) * 1000 ≤ (r.alerts x).next * 1000)
    in_time x (inl e) later = inl e
    in_time x (inr l) later = inr (omega arith)
