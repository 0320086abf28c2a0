-- ===== src/Arguments/Removed.antt =====
-- What `get_argument` takes out of the command line.
use libudjat.Base.{
  ℕ, suc, ◌+◌, ◌≤◌, ◌<◌, ◌≡◌, refl, sym, ap, ◌∙◌, ◌↔◌, ◌⊎◌, inl, inr, true, Option, some, List, [],
  ◌∷◌, ◌++◌, append-nil, arith, Option-cases, Bytes, length,
}
use libudjat.Arguments.{
  match_short, match_argument, get_loop, extract_all, get_argument, Match, skip, inside, behind,
}
use libudjat.Arguments.Found.{extract-append}

match_short-behind :
    (short : ℕ) (s v : Bytes) (rest : List Bytes)
    → match_short short s rest ≡ behind v
    → (tl : List Bytes) × (rest ≡ v ∷ tl)
unfolding match_short
match_short-behind short s v [] e = ([], ground arith)
match_short-behind short s v (x ∷ tl) e = (tl, ground arith)

match-behind :
    (short : ℕ) (long s v : Bytes) (rest : List Bytes)
    → match_argument short long s rest ≡ behind v
    → match_short short s rest ≡ behind v
unfolding match_argument
match-behind short long s v rest e = ground arith

-- An option at place `k` of the arguments, counted from `ix`, and the `n` arguments it takes up.
record Taken (ix : ℕ) (args : List Bytes) (k n : ℕ) : Type 0 where
  before : List Bytes
  taken : List Bytes
  after : List Bytes
  splits : args ≡ before ++ (taken ++ after)
  place : k ≡ ix + length before
  count : n ≡ length taken
  few : (0 < n) × (n ≤ 2)

Match-cases :
    (m : Match) → (m ≡ skip) ⊎ (((v : Bytes) × (m ≡ inside v)) ⊎ ((v : Bytes) × (m ≡ behind v)))
Match-cases skip = inl refl
Match-cases (inside v) = inr (inl (v, refl))
Match-cases (behind v) = inr (inr (v, refl))

Taken-first :
    (ix : ℕ) (args : List Bytes) (k n : ℕ) (taken after : List Bytes)
    → args ≡ taken ++ after
    → k ≡ ix
    → n ≡ length taken
    → (0 < n) × (n ≤ 2)
    → Taken ix args k n
Taken-first ix args k n taken after e f g few = record {
  before = [];
  taken = taken;
  after = after;
  splits = e;
  place = omega arith;
  count = g;
  few = few;
}

Taken-later :
    (ix : ℕ) (s : Bytes) (rest : List Bytes) (k n : ℕ)
    → Taken (ix + 1) rest k n
    → Taken ix (s ∷ rest) k n
Taken-later ix s rest k n t = record {
  before = s ∷ t.before;
  taken = t.taken;
  after = t.after;
  splits = ap (◌∷◌ s) t.splits;
  place = omega arith;
  count = t.count;
  few = t.few;
}

get_loop-Taken :
    (short : ℕ) (long : Bytes) (ix : ℕ) (args : List Bytes) (k n : ℕ) (value : Bytes)
    → get_loop short long ix args ≡ some (k, value, n)
    → Taken ix args k n
unfolding get_loop
get_loop-Taken short long ix [] k n value h = absurd cc
get_loop-Taken short long ix (s ∷ rest) k n value h =
    elim (Match-cases (match_argument short long s rest)) [
      | inl e ↦
          Taken-later ix s rest k n
            (get_loop-Taken short long (ix + 1) rest k n value (rw (e, get_loop) at h))
      | inr (inl (v, e)) ↦
          let f : ◌≡◌ {A = Option (ℕ × Bytes × ℕ)} (some (ix, v, 1)) (some (k, value, n)) =
            rw (e, get_loop) at h in
          Taken-first ix (s ∷ rest) k n (s ∷ []) rest refl (ground arith) (ground arith)
            (ground arith)
      | inr (inr (v, e)) ↦
          let f : ◌≡◌ {A = Option (ℕ × Bytes × ℕ)} (some (ix, v, 2)) (some (k, value, n)) =
            rw (e, get_loop) at h in
          let (tl, g) = match_short-behind short s v rest (match-behind short long s v rest e) in
          Taken-first ix (s ∷ rest) k n (s ∷ v ∷ []) tl (ap (◌∷◌ s) g) (ground arith) (ground arith)
            (ground arith)
    ]

extract_all-append :
    (before taken after : List Bytes)
    → extract_all (length taken) (length before) (before ++ (taken ++ after)) ≡ before ++ after
extract_all-append before [] after = refl
extract_all-append before (s ∷ taken) after =
    rw (extract-append before (taken ++ after) s, extract_all)
      (extract_all-append before taken after)

-- What `get_argument` with `remove` makes of a command line: the program and all arguments stay but
-- for at most two neighbours, and one at least is taken out exactly if an option was found.
pub get_argument-removed :
    (short : ℕ) (long program : Bytes) (args : List Bytes)
    → (before : List Bytes) × (taken : List Bytes) × (after : List Bytes) × (args
        ≡ before ++ (taken ++ after))
      × ((get_argument short long true (program ∷ args)).2 ≡ program ∷ (before ++ after))
      × (length taken ≤ 2)
      × (((get_argument short long true (program ∷ args)).0 ≡ true) ↔ (0 < length taken))
unfolding get_argument
get_argument-removed short long program args = elim (Option-cases (get_loop short long 1 args)) [
  | inl e ↦
      rw (e, get_argument)
        (
          args,
          [],
          [],
          sym (append-nil args),
          ap (◌∷◌ program) (sym (append-nil args)),
          omega arith,
          (λ h. absurd cc, λ h. absurd (omega arith)),
        )
  | inr ((k, value, n), e) ↦
      let t = get_loop-Taken short long 1 args k n value e in
      let p : k ≡ suc (length t.before) = omega (arith, t.place) in
      rw (e, get_argument)
        (
          t.before,
          t.taken,
          t.after,
          t.splits,
          (λ i. extract_all (t.count i) (p i) (program ∷ t.splits i))
              ∙ extract_all-append (program ∷ t.before) t.taken t.after,
          omega (arith, t.count, t.few.1),
          (λ h. omega (arith, t.count, t.few.0), λ h. refl),
        )
]
