-- ===== src/Text/Split/RoundTrip.antt =====
-- `split` takes apart what a delimiter of one character joins.
use libudjat.Base.{
  ℕ, zero, suc, ◌+◌, ◌<◌, ◌≡◌, refl, ap, ◌∙◌, ◌≢◌, false, none, some, List, [], ◌∷◌, ◌++◌,
  append-nil, append_assoc, arith, ◌==◌, Bytes, length, drop, length-append, take-append, All,
  IsText, c_str-IsText, IsText-append, is_space, n_eq,
}
use libudjat.Text.Strip.{chug, strip}
use libudjat.Text.Strip.Laws.{IsChugged, IsTrimmed, chug-IsChugged, strip-IsTrimmed}
use libudjat.Text.Split.{find_sub, split_loop, split}

abbrev pub join : ℕ → List Bytes → Bytes
join d [] = []
join d (p ∷ []) = p
join d (p ∷ q ∷ ps) = p ++ (d ∷ join d (q ∷ ps))

abbrev pub Lacks : ℕ → Bytes → Type 0
Lacks d = All (λ c. (c == d) ≡ false)

-- Values with no blank at an end and no delimiter inside; only the last may not be empty.
abbrev pub AreValues : ℕ → List Bytes → Type 0
AreValues d [] = Unit
AreValues d (p ∷ []) = IsTrimmed p × Lacks d p × (p ≢ [])
AreValues d (p ∷ q ∷ ps) = IsTrimmed p × Lacks d p × AreValues d (q ∷ ps)

pub find_sub-found :
    (d : ℕ) (p t : Bytes) → Lacks d p → find_sub (d ∷ []) (p ++ (d ∷ t)) ≡ some (length p)
unfolding find_sub n_eq
find_sub-found d [] t h = ground (arith)
find_sub-found d (c ∷ p) t h = rw (h.0, find_sub-found d p t h.1)

find_sub-none : (d : ℕ) (p : Bytes) → Lacks d p → find_sub (d ∷ []) p ≡ none
unfolding find_sub n_eq
find_sub-none d [] h = refl
find_sub-none d (c ∷ p) h = rw (h.0, find_sub-none d p h.1)

pub drop_found : (d : ℕ) (p t : Bytes) → drop (length p + 1) (p ++ (d ∷ t)) ≡ t
drop_found d p t = let e : length p + 1 ≡ suc (length p) = omega arith in rw e (go p)
  where
    go : (p : Bytes) → drop (suc (length p)) (p ++ (d ∷ t)) ≡ t
    go [] = refl
    go (c ∷ p) = go p

module _ (d : ℕ) (b : is_space d ≡ false) where
  split_loop_cut :
      (fuel : ℕ) (strings : List Bytes) (p t : Bytes)
      → Lacks d p
      → split_loop (suc fuel) (d ∷ []) 0 strings (p ++ (d ∷ t))
        ≡ split_loop fuel (d ∷ []) 0 (strings ++ strip p ∷ []) (chug (chug t))
  unfolding split_loop
  split_loop_cut fuel strings [] t h = rw (find_sub-found d [] t h, split_loop)
  split_loop_cut fuel strings (c ∷ p) t h =
      rw (find_sub-found d (c ∷ p) t h, split_loop)
        (rw (drop_found d (c ∷ p) t, take-append p (d ∷ t)))

  split_loop_last :
      (fuel : ℕ) (strings : List Bytes) (p : Bytes)
      → Lacks d p
      → p ≢ []
      → split_loop (suc fuel) (d ∷ []) 0 strings p ≡ some (strings ++ strip p ∷ [])
  unfolding split_loop
  split_loop_last fuel strings [] h ne = absurd (ne refl)
  split_loop_last fuel strings (c ∷ p) h ne = rw (find_sub-none d (c ∷ p) h, split_loop)

  join-IsChugged : (ps : List Bytes) → AreValues d ps → IsChugged (join d ps)
  join-IsChugged [] h = tt
  join-IsChugged (p ∷ []) h = h.0.0
  join-IsChugged ([] ∷ q ∷ ps) h = b
  join-IsChugged ((c ∷ p) ∷ q ∷ ps) h = h.0.0

  split_loop-join :
      (fuel : ℕ) (strings ps : List Bytes)
      → AreValues d ps
      → length (join d ps) < fuel
      → split_loop fuel (d ∷ []) 0 strings (join d ps) ≡ some (strings ++ ps)
  unfolding split_loop
  split_loop-join zero strings ps h f = absurd (omega arith)
  split_loop-join (suc fuel) strings [] h f = rw append-nil
  split_loop-join (suc fuel) strings (p ∷ []) h f =
      split_loop_last fuel strings p h.1 h.2 ∙ rw (strip-IsTrimmed p h.0)
  split_loop-join (suc fuel) strings (p ∷ q ∷ ps) h f =
      let t = join d (q ∷ ps) in
      let e : chug t ≡ t = chug-IsChugged t (join-IsChugged (q ∷ ps) h.2) in
      split_loop_cut fuel strings p t h.1
      ∙ rw (strip-IsTrimmed p h.0, e, e)
          (split_loop-join fuel (strings ++ p ∷ []) (q ∷ ps) h.2
              (omega (arith, length-append p (d ∷ t)))
            ∙ ap some (append_assoc strings (p ∷ []) (q ∷ ps)))

join-IsText : (d : ℕ) (ps : List Bytes) → 0 < d → All IsText ps → IsText (join d ps)
join-IsText d [] n h = tt
join-IsText d (p ∷ []) n h = h.0
join-IsText d (p ∷ q ∷ ps) n h =
    IsText-append p (d ∷ join d (q ∷ ps)) h.0 (n, join-IsText d (q ∷ ps) n h.1)

-- `split` gives back every list of values that a delimiter of one character joined, if the
-- delimiter is no blank and no 0, the values are trimmed and hold no delimiter and no 0, and the
-- last is not empty.
pub split-join :
    (d : ℕ) (ps : List Bytes)
    → is_space d ≡ false
    → 0 < d
    → AreValues d ps
    → All IsText ps
    → split (d ∷ []) 0 (join d ps) ≡ some ps
unfolding split
split-join d ps b n h t =
    rw (c_str-IsText (join d ps) (join-IsText d ps n t))
      (split_loop-join d b (suc (length (join d ps))) [] ps h (omega arith))
