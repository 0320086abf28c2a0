-- ===== src/Url/Clean.antt =====
-- `sanitize` leaves one of each run of slashes, and of each run of backslashes.
use mathlib.Core.Option
use libudjat.Base.{
  ℕ, zero, suc, ◌+◌, ◌<◌, ◌≡◌, refl, sym, ap, subst, ◌∙◌, Bool, true, false, ◌&&◌, Option, none,
  some, [], ◌∷◌, ◌++◌, arith, ◌==◌, if◌then◌else◌, ==_refl, Bytes, length, take, drop, n_eq,
}
use libudjat.Text.Split.{find_sub}
use libudjat.Url.{squeeze_loop, sanitize}

-- A text without the `c`s that stand behind a `c`; `prev` says whether one stands before it.
unfoldable pub squeeze : ℕ → Bool → Bytes → Bytes
squeeze c prev [] = []
squeeze c prev (x ∷ xs) =
    let rest = squeeze c (x == c) xs in if x == c && prev then rest else x ∷ rest

abbrev starts : ℕ → Bytes → Bool
starts c [] = false
starts c (x ∷ xs) = x == c

n_eq-starts : (c x : ℕ) (xs : Bytes) → n_eq 2 (x ∷ xs) (c ∷ c ∷ []) ≡ (x == c && starts c xs)
unfolding n_eq
n_eq-starts c x [] = ground arith
n_eq-starts c x (y ∷ ys) = ground arith

map-none : (o : Option ℕ) → Option.map suc o ≡ none → o ≡ none
map-none none h = refl
map-none (some n) h = absurd cc

-- Where no pair stands, nothing is left out.
squeeze-find_sub-none :
    (c : ℕ) (prev : Bool) (s : Bytes)
    → find_sub (c ∷ c ∷ []) s ≡ none
    → (prev && starts c s) ≡ false
    → squeeze c prev s ≡ s
unfolding squeeze find_sub
squeeze-find_sub-none c prev [] h k = refl
squeeze-find_sub-none c prev (x ∷ xs) h k =
    no_pair (n_eq 2 (x ∷ xs) (c ∷ c ∷ [])) (n_eq-starts c x xs) h
      (squeeze-find_sub-none c (x == c) xs)
  where
    no_pair :
        (b : Bool)
        → b ≡ (x == c && starts c xs)
        → (if b then some 0 else Option.map suc (find_sub (c ∷ c ∷ []) xs)) ≡ none
        → (find_sub (c ∷ c ∷ []) xs ≡ none
            → (x == c && starts c xs) ≡ false
            → squeeze c (x == c) xs ≡ xs)
        → squeeze c prev (x ∷ xs) ≡ x ∷ xs
    no_pair true e g ih = absurd cc
    no_pair false e g ih = ground (arith, ih (map-none _ g) (sym e))

-- The text with one of the pair at `n`.
abbrev joined : ℕ → ℕ → Bytes → Bytes
joined c n s = take n s ++ (c ∷ drop (n + 2) s)

-- It has the same without what stands behind its like, and is shorter by one.
abbrev Joins : ℕ → Bool → Bytes → ℕ → Type 0
Joins c prev s n =
    (squeeze c prev (joined c n s) ≡ squeeze c prev s) × (suc (length (joined c n s)) ≡ length s)

joined-suc : (c x p : ℕ) (xs : Bytes) → x ∷ joined c p xs ≡ joined c (suc p) (x ∷ xs)
joined-suc c x p xs = ap (λ n. x ∷ (take p xs ++ (c ∷ drop n (x ∷ xs)))) (plus_two p)
  where
    plus_two : (p : ℕ) → suc (p + 2) ≡ suc p + 2
    plus_two p = omega arith

-- To make one of a pair that is found.
find_sub-Joins :
    (c : ℕ) (prev : Bool) (s : Bytes) (n : ℕ) → find_sub (c ∷ c ∷ []) s ≡ some n → Joins c prev s n
unfolding squeeze find_sub n_eq
find_sub-Joins c prev [] n h = absurd cc
find_sub-Joins c prev (x ∷ []) n h = absurd (lonely (x == c) h)
  where
    lonely : (b : Bool) → (if b && false then some 0 else none) ≡ some n → ⊥
    lonely true e = absurd cc
    lonely false e = absurd cc
find_sub-Joins c prev (x ∷ y ∷ ys) n h =
    found (n_eq 2 (x ∷ y ∷ ys) (c ∷ c ∷ [])) (find_sub (c ∷ c ∷ []) (y ∷ ys)) refl
      (find_sub-Joins c (x == c) (y ∷ ys)) n h
  where
    at_head : n_eq 2 (x ∷ y ∷ ys) (c ∷ c ∷ []) ≡ true → Joins c prev (x ∷ y ∷ ys) 0
    at_head e = (ground (arith, ==_refl c), refl)

    behind : (p : ℕ) → Joins c (x == c) (y ∷ ys) p → Joins c prev (x ∷ y ∷ ys) (suc p)
    behind p (e, l) =
        subst
          (λ t.
            (squeeze c prev t ≡ squeeze c prev (x ∷ y ∷ ys))
            × (suc (length t) ≡ length (x ∷ y ∷ ys)))
          (joined-suc c x p (y ∷ ys)) (ap (λ t. if x == c && prev then t else x ∷ t) e, ap suc l)

    found :
        (b : Bool) (o : Option ℕ)
        → n_eq 2 (x ∷ y ∷ ys) (c ∷ c ∷ []) ≡ b
        → ((p : ℕ) → o ≡ some p → Joins c (x == c) (y ∷ ys) p)
        → (n : ℕ) → (if b then some 0 else Option.map suc o) ≡ some n
        → Joins c prev (x ∷ y ∷ ys) n
    found true o e ih n h = subst (Joins c prev (x ∷ y ∷ ys)) (Option.some_inj.0 h) (at_head e)
    found false none e ih n h = absurd cc
    found false (some p) e ih n h =
        subst (Joins c prev (x ∷ y ∷ ys)) (Option.some_inj.0 h) (behind p (ih p refl))

-- The loop of `sanitize` for one character, with enough fuel.
squeeze_loop-eq-squeeze :
    (fuel c : ℕ) (s : Bytes) → length s < fuel → squeeze_loop fuel c s ≡ some (squeeze c false s)
unfolding squeeze_loop
squeeze_loop-eq-squeeze zero c s h = absurd (omega arith)
squeeze_loop-eq-squeeze (suc fuel) c s h =
    step (find_sub (c ∷ c ∷ []) s) refl (squeeze_loop-eq-squeeze fuel c)
  where
    step :
        (o : Option ℕ)
        → find_sub (c ∷ c ∷ []) s ≡ o
        → ((t : Bytes) → length t < fuel → squeeze_loop fuel c t ≡ some (squeeze c false t))
        → elim o as (λ o. Option Bytes) [
          | none ↦ some s
          | some pos ↦ squeeze_loop fuel c (joined c pos s)
        ]
          ≡ some (squeeze c false s)
    step none e ih = ap some (sym (squeeze-find_sub-none c false s e refl))
    step (some n) e ih = shorter (find_sub-Joins c false s n e)
      where
        shorter : Joins c false s n → squeeze_loop fuel c (joined c n s) ≡ some (squeeze c false s)
        shorter (same, l) = ih (joined c n s) (omega (arith, l, h)) ∙ ap some same

-- `sanitize` ends, with the path without a slash behind a slash, and then without a backslash
-- behind a backslash.
pub sanitize-eq-squeeze :
    (path : Bytes) → sanitize path ≡ some (squeeze b'\\' false (squeeze b'/' false path))
unfolding sanitize
sanitize-eq-squeeze path =
    ap
      (λ o. elim o as (λ o. Option Bytes) [
        | none ↦ none
        | some p ↦ squeeze_loop (suc (length p)) b'\\' p
      ])
      (squeeze_loop-eq-squeeze (suc (length path)) b'/' path (omega arith))
    ∙ squeeze_loop-eq-squeeze (suc (length (squeeze b'/' false path))) b'\\'
        (squeeze b'/' false path) (omega arith)
