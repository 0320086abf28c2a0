-- ===== src/TimeStamp/Ends.antt =====
-- The parser of spans comes to an end.
use libudjat.Base.{
  ℕ, zero, suc, ◌+◌, ◌-◌, ◌*◌, ◌%◌, ◌^◌, ◌≤◌, ◌<◌, ◌≡◌, refl, ap, ◌⊎◌, inl, inr, Option, none, some,
  List, [], ◌∷◌, arith, ◌==◌, Bool-cases, Bytes, length, length-drop, ◌>>=◌, Result, err, ok,
}
use libudjat.TimeStamp.{
  time_units, compare_unit, find_unit, skip_marks, scan_number, times_unit, scaled, parse_part,
  parse_span, TimeUnit, TimeError, unknown_unit,
}

-- A round takes some of the text, or fails with an exception of the source.
abbrev Within : ℕ → Result TimeError (ℕ × Bytes) → Type 0
Within n (err e) = e ≡ unknown_unit
Within n (ok (v, ptr)) = length ptr < n

length-skip_marks : (s : Bytes) → length (skip_marks s) ≤ length s
unfolding skip_marks
length-skip_marks [] = omega arith
length-skip_marks (c ∷ cs) = ground (arith, length-skip_marks cs)

length-scan_number : (v : ℕ) (s : Bytes) → length (scan_number v s).1 ≤ length s
unfolding scan_number
length-scan_number v [] = omega arith
length-scan_number v (c ∷ cs) =
    ground (arith, length-scan_number ((v * 10 + (c - b'0')) % 2 ^ 64) cs)

-- A unit that is found has some length.
abbrev SomeLength : Option (ℕ × ℕ) → Type 0
SomeLength none = Unit
SomeLength (some (len, unit)) = 0 < len

find_unit-SomeLength :
    (t : Bytes → Bytes) (ptr : Bytes) (us : List TimeUnit) → SomeLength (find_unit t ptr us)
unfolding find_unit
find_unit-SomeLength t ptr [] = tt
find_unit-SomeLength t ptr (u ∷ us) = elim (Bool-cases (compare_unit t u ptr == 0)) [
  | inl e ↦ rw e (find_unit-SomeLength t ptr us)
  | inr e ↦ rw e (ground (arith, e))
]

scaled-Within :
    (t : Bytes → Bytes) (v : ℕ) (s : Bytes) (n : ℕ) → 0 < n → length s ≤ n → Within n (scaled t v s)
unfolding scaled
scaled-Within t v [] n h k = h
scaled-Within t v (c ∷ cs) n h k =
    by_unit (find_unit t (c ∷ cs) time_units) (find_unit-SomeLength t (c ∷ cs) time_units)
  where
    by_unit : (o : Option (ℕ × ℕ)) → SomeLength o → Within n (times_unit v (c ∷ cs) o)
    by_unit none l = refl
    by_unit (some (len, unit)) l = omega (arith, k, l, length-drop len (c ∷ cs))

parse_part-Within :
    (t : Bytes → Bytes) (c : ℕ) (cs : Bytes) → Within (length (c ∷ cs)) (parse_part t (c ∷ cs))
unfolding parse_part
parse_part-Within t c cs =
    scaled-Within t (scan_number 0 (skip_marks (c ∷ cs))).0
      (skip_marks (scan_number 0 (skip_marks (c ∷ cs))).1) (length (c ∷ cs)) (omega arith)
      (omega (
        arith,
        length-skip_marks (scan_number 0 (skip_marks (c ∷ cs))).1,
        length-scan_number 0 (skip_marks (c ∷ cs)),
        length-skip_marks (c ∷ cs),
      ))

abbrev Ends : Result TimeError ℕ → Type 0
Ends r = ((n : ℕ) × (r ≡ ok n)) ⊎ (r ≡ err unknown_unit)

part-Ends :
    (n fuel : ℕ) (r : Result TimeError (ℕ × Bytes)) (go : ℕ → Bytes → Result TimeError ℕ)
    → Within n r
    → n ≤ suc fuel
    → ((v : ℕ) (ptr : Bytes) → length ptr ≤ fuel → Ends (go v ptr))
    → Ends (r >>= λ p. go p.0 p.1)
part-Ends n fuel (err e) go w h next = inr (ap err w)
part-Ends n fuel (ok (v, ptr)) go w h next = next v ptr (omega (arith, w, h))

-- The loop over the parts of a span ends within as many rounds as the text has bytes, whatever the
-- text, the translations and what was added up before: it gives a number or the exception for an
-- unknown unit.
pub parse_span-ends :
    (t : Bytes → Bytes) (fuel value : ℕ) (text : Bytes)
    → length text ≤ fuel
    → ((n : ℕ) × (parse_span t fuel value text ≡ ok n))
      ⊎ (parse_span t fuel value text ≡ err unknown_unit)
unfolding parse_span
parse_span-ends t fuel value [] h = inl (value, refl)
parse_span-ends t zero value (c ∷ cs) h = absurd (omega (arith, h))
parse_span-ends t (suc fuel) value (c ∷ cs) h =
    part-Ends (length (c ∷ cs)) fuel (parse_part t (c ∷ cs))
      (λ v ptr. parse_span t fuel ((value + v) % 2 ^ 64) ptr) (parse_part-Within t c cs) h
      (λ v ptr l. parse_span-ends t fuel ((value + v) % 2 ^ 64) ptr l)
