-- ===== src/Text/Expand/Count.antt =====
-- How many markers the steps of `expand` leave.
use mathlib.Core.Option
use libudjat.Base.{
  ℕ, zero, suc, ◌+◌, ◌-◌, ◌≤◌, ◌<◌, ◌≡◌, refl, sym, ap, subst, ◌∙◌, Bool, true, false, Option, none,
  some, [], ◌∷◌, ◌++◌, arith, ltb, if◌then◌else◌, Bytes, length, take, drop, count, count-append,
  c_str, n_eq, ◌>>=◌, Result, err, ok,
}
use libudjat.Text.Split.{find_sub}
use libudjat.Text.Expand.{find_at, range_of, cut, replace, expand_at, starter, Error, bad_position}

count-drop : (m n : ℕ) (xs : Bytes) → count m (drop n xs) ≤ count m xs
count-drop m zero xs = omega arith
count-drop m (suc n) [] = omega arith
count-drop m (suc n) (x ∷ xs) = ground (arith, count-drop m n xs)

count-take : (m n : ℕ) (xs : Bytes) → count m (take n xs) ≤ count m xs
count-take m zero xs = omega arith
count-take m (suc n) [] = omega arith
count-take m (suc n) (x ∷ xs) = ground (arith, count-take m n xs)

count-c_str : (m : ℕ) (xs : Bytes) → count m (c_str xs) ≤ count m xs
unfolding c_str
count-c_str m [] = omega arith
count-c_str m (x ∷ xs) = ground (arith, count-c_str m xs)

drop-take : (m n : ℕ) (xs ys : Bytes) → count m (drop n (take n xs ++ ys)) ≤ count m ys
drop-take m zero xs ys = omega arith
drop-take m (suc n) [] ys = count-drop m (suc n) ys
drop-take m (suc n) (x ∷ xs) ys = drop-take m n xs ys

suc_plus : (a b : ℕ) → suc a + b ≡ suc (a + b)
suc_plus a b = omega arith

drop-drop : (a b : ℕ) (xs : Bytes) → drop (a + b) xs ≡ drop b (drop a xs)
drop-drop zero b xs = ap (λ n. drop n xs) (omega arith)
drop-drop (suc a) b [] = drop_nil (suc a + b) ∙ sym (drop_nil b)
  where
    drop_nil : (n : ℕ) → drop {A = ℕ} n [] ≡ []
    drop_nil zero = refl
    drop_nil (suc n) = refl
drop-drop (suc a) b (x ∷ xs) = ap (λ n. drop n (x ∷ xs)) (suc_plus a b) ∙ drop-drop a b xs

-- Where a marker is found, one is passed by.
find_sub-count :
    (m k : ℕ) (xs : Bytes) (n : ℕ)
    → find_sub (starter m) xs ≡ some n
    → count m (drop (n + suc k) xs) < count m xs
unfolding find_sub n_eq
find_sub-count m k [] n h = absurd cc
find_sub-count m k (x ∷ xs) n h =
    found (n_eq 2 (x ∷ xs) (starter m)) (find_sub (starter m) xs) refl
      (λ p. find_sub-count m k xs p) n h
  where
    at_head :
        n_eq 2 (x ∷ xs) (starter m) ≡ true → count m (drop (0 + suc k) (x ∷ xs)) < count m (x ∷ xs)
    at_head e = ground (arith, count-drop m k xs)

    behind :
        (p : ℕ)
        → count m (drop (p + suc k) xs) < count m xs
        → count m (drop (suc p + suc k) (x ∷ xs)) < count m (x ∷ xs)
    behind p h =
        subst (λ n. count m (drop n (x ∷ xs)) < count m (x ∷ xs)) (sym (suc_plus p (suc k)))
          (ground arith)

    found :
        (b : Bool) (o : Option ℕ)
        → n_eq 2 (x ∷ xs) (starter m) ≡ b
        → ((p : ℕ) → o ≡ some p → count m (drop (p + suc k) xs) < count m xs)
        → (n : ℕ) → (if b then some 0 else Option.map suc o) ≡ some n
        → count m (drop (n + suc k) (x ∷ xs)) < count m (x ∷ xs)
    found true o e ih n h =
        subst (λ n. count m (drop (n + suc k) (x ∷ xs)) < count m (x ∷ xs)) (Option.some_inj.0 h)
          (at_head e)
    found false none e ih n h = absurd cc
    found false (some p) e ih n h =
        subst (λ n. count m (drop (n + suc k) (x ∷ xs)) < count m (x ∷ xs)) (Option.some_inj.0 h)
          (behind p (ih p refl))

-- A part of a value has no more markers than the value.
cut-count :
    (m a b : ℕ) (value part : Bytes) → cut a b value ≡ ok part → count m part ≤ count m value
cut-count m a b value part h = pieces (ltb a b) (ltb (length value) a) h
  where
    ok_or : Result Error Bytes → Bytes
    ok_or (err e) = []
    ok_or (ok x) = x

    pieces :
        (c d : Bool)
        → (if c then if d then err bad_position else ok (take (b - a) (drop a value)) else ok value)
          ≡ ok part
        → count m part ≤ count m value
    pieces false d e = subst (λ x. count m x ≤ count m value) (ap ok_or e) (omega arith)
    pieces true true e = absurd cc
    pieces true false e =
        subst (λ x. count m x ≤ count m value) (ap ok_or e)
          (ground (arith, count-take m (b - a) (drop a value), count-drop m a value))

-- What is put in the place of a marker leaves the markers behind it.
replace-count :
    (m from end : ℕ) (value s : Bytes)
    → count m value ≡ 0
    → count m (drop from (replace from end value s)) ≤ count m (drop end s)
replace-count m from end value s none_in = ground (
  arith,
  drop-take m from s (c_str value ++ drop end s),
  count-append m (c_str value) (drop end s),
  count-c_str m value,
)

-- After a marker fewer markers are left to be searched.
pub expand_at-count :
    (m : ℕ) (expander : Bytes → Option Bytes) (from close : ℕ) (s : Bytes) (base : ℕ) (t : Bytes)
    → ((key value : Bytes) → expander key ≡ some value → count m value ≡ 0)
    → expand_at expander from close s ≡ ok (base, t)
    → count m (drop base t) ≤ count m (drop (close + 1) s)
unfolding expand_at
expand_at-count m expander from close s base t clean h =
    by_range (range_of (take (close - from - 2) (drop (from + 2) s))) h
  where
    pair_or : Result Error (ℕ × Bytes) → ℕ × Bytes
    pair_or (err e) = (0, [])
    pair_or (ok x) = x

    Goal : ℕ × Bytes → Type 0
    Goal (b, u) = count m (drop b u) ≤ count m (drop (close + 1) s)

    by_part :
        (r : Result Error Bytes)
        → ((part : Bytes) → r ≡ ok part → count m part ≡ 0)
        → elim r as (λ r. Result Error (ℕ × Bytes)) [
          | err e ↦ err e
          | ok part ↦ ok (from, replace from (close + 1) part s)
        ]
          ≡ ok (base, t)
        → Goal (base, t)
    by_part (err e) clear k = absurd cc
    by_part (ok part) clear k =
        subst Goal (ap pair_or k) (replace-count m from (close + 1) part s (clear part refl))

    by_value :
        (a b : ℕ) (o : Option Bytes)
        → ((value : Bytes) → o ≡ some value → count m value ≡ 0)
        → elim o as (λ o. Result Error (ℕ × Bytes)) [
          | none ↦ ok (close + 1, s)
          | some value ↦ elim (cut a b value) as (λ r. Result Error (ℕ × Bytes)) [
            | err e ↦ err e
            | ok part ↦ ok (from, replace from (close + 1) part s)
          ]
        ]
          ≡ ok (base, t)
        → Goal (base, t)
    by_value a b none clear k = subst Goal (ap pair_or k) (omega arith)
    by_value a b (some value) clear k =
        by_part (cut a b value) (λ part e. none_left part (cut-count m a b value part e)) k
      where
        none_left : (part : Bytes) → count m part ≤ count m value → count m part ≡ 0
        none_left part le = omega (arith, clear value refl)

    by_range :
        (r : Result Error (Bytes × ℕ × ℕ))
        → (r >>= (λ (key, a, b). elim (expander (c_str key)) as (λ o. Result Error (ℕ × Bytes)) [
          | none ↦ ok (close + 1, s)
          | some value ↦ elim (cut a b value) as (λ r. Result Error (ℕ × Bytes)) [
            | err e ↦ err e
            | ok part ↦ ok (from, replace from (close + 1) part s)
          ]
        ]))
          ≡ ok (base, t)
        → Goal (base, t)
    by_range (err e) k = absurd cc
    by_range (ok (key, a, b)) k =
        by_value a b (expander (c_str key)) (λ value e. clean (c_str key) value e) k

-- A marker and what closes it are passed by.
pub find_at-count :
    (m base from close : ℕ) (text s : Bytes)
    → find_at (starter m) base s ≡ some from
    → find_at text (from + 3) s ≡ some close
    → count m (drop (close + 1) s) < count m (drop base s)
find_at-count m base from close text s h k =
    marked (find_sub (starter m) (drop base s)) (find_sub text (drop (from + 3) s))
      (λ i. find_sub-count m i (drop base s)) h k
  where
    far : (n j : ℕ) → from ≡ base + n → close ≡ from + 3 + j → base + (n + suc (j + 3)) ≡ close + 1
    far n j e f = omega arith

    marked :
        (o p : Option ℕ)
        → ((k n : ℕ)
            → o ≡ some n
            → count m (drop (n + suc k) (drop base s)) < count m (drop base s))
        → Option.map (λ n. base + n) o ≡ some from
        → Option.map (λ n. from + 3 + n) p ≡ some close
        → count m (drop (close + 1) s) < count m (drop base s)
    marked none p less e f = absurd cc
    marked (some n) none less e f = absurd cc
    marked (some n) (some j) less e f =
        subst (λ i. count m (drop i s) < count m (drop base s))
          (far n j (sym (Option.some_inj.0 e)) (sym (Option.some_inj.0 f)))
          (subst (λ xs. count m xs < count m (drop base s)) (sym (drop-drop base _ s))
            (less (j + 3) n refl))
