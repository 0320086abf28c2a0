-- ===== src/Text/Expand/Total.antt =====
-- `expand` ends, unless a value has the marker in it.
use libudjat.Base.{
  ℕ, zero, suc, ◌+◌, ◌≤◌, ◌<◌, ◌≡◌, refl, Option, none, some, arith, Bytes, codes, drop, count,
  Result, err, ok,
}
use libudjat.Text.Split.{find_sub}
use libudjat.Text.Expand.{
  find_at, range_of, expand_at, starter, expand_loop, expand, Error, invalid_use,
}
use libudjat.Text.Expand.Count.{expand_at-count, find_at-count}

abbrev pub HasResult : Option (Result Error Bytes) → Type 0
HasResult o = (r : Result Error Bytes) × (o ≡ some r)

expand_loop-total :
    (fuel m : ℕ) (expander : Bytes → Option Bytes) (base : ℕ) (s : Bytes)
    → ((key value : Bytes) → expander key ≡ some value → count m value ≡ 0)
    → count m (drop base s) < fuel
    → HasResult (expand_loop fuel m expander base s)
unfolding expand_loop
expand_loop-total zero m expander base s clean h = absurd (omega arith)
expand_loop-total (suc fuel) m expander base s clean h =
    opened (find_at (starter m) base s) refl (λ b t. expand_loop-total fuel m expander b t clean)
  where
    again : ℕ → Bytes → Option (Result Error Bytes)
    again b t = expand_loop fuel m expander b t

    stepped :
        (close : ℕ) (r : Result Error (ℕ × Bytes))
        → ((next : ℕ × Bytes) → r ≡ ok next → HasResult (again next.0 next.1))
        → HasResult (elim r as (λ r. Option (Result Error Bytes)) [
          | err e ↦ some (err e)
          | ok next ↦ again next.0 next.1
        ])
    stepped close (err e) ih = (err e, refl)
    stepped close (ok next) ih = ih next refl

    closed :
        (from : ℕ) (o : Option ℕ)
        → ((close : ℕ) → o ≡ some close → count m (drop (close + 1) s) < count m (drop base s))
        → ((b : ℕ) (t : Bytes) → count m (drop b t) < fuel → HasResult (again b t))
        → HasResult (elim o as (λ o. Option (Result Error Bytes)) [
          | none ↦ some (err invalid_use)
          | some close ↦
              elim (expand_at expander from close s) as (λ r. Option (Result Error Bytes)) [
                | err e ↦ some (err e)
                | ok next ↦ again next.0 next.1
              ]
        ])
    closed from none less ih = (err invalid_use, refl)
    closed from (some close) less ih = stepped close (expand_at expander from close s) (λ next e.
        ih next.0 next.1 (
          smaller next (less close refl)
            (expand_at-count m expander from close s next.0 next.1 clean e)))
      where
        smaller :
            (next : ℕ × Bytes)
            → count m (drop (close + 1) s) < count m (drop base s)
            → count m (drop next.0 next.1) ≤ count m (drop (close + 1) s)
            → count m (drop next.0 next.1) < fuel
        smaller next a b = omega arith

    opened :
        (o : Option ℕ)
        → find_at (starter m) base s ≡ o
        → ((b : ℕ) (t : Bytes) → count m (drop b t) < fuel → HasResult (again b t))
        → HasResult (elim o as (λ o. Option (Result Error Bytes)) [
          | none ↦ some (ok s)
          | some from ↦
              elim (find_at (codes "}") (from + 3) s) as (λ o. Option (Result Error Bytes)) [
                | none ↦ some (err invalid_use)
                | some close ↦
                    elim (expand_at expander from close s) as (λ r. Option (Result Error Bytes)) [
                      | err e ↦ some (err e)
                      | ok next ↦ again next.0 next.1
                    ]
              ]
        ])
    opened none e ih = (ok s, refl)
    opened (some from) e ih =
        closed from (find_at (codes "}") (from + 3) s)
          (λ close f. find_at-count m base from close (codes "}") s e f) ih

-- If no value has the marker's character in it, `expand` ends, with a text or an exception, after
-- no more rounds than the text has such characters, and one.
pub expand-total :
    (m : ℕ) (expander : Bytes → Option Bytes) (s : Bytes)
    → ((key value : Bytes) → expander key ≡ some value → count m value ≡ 0)
    → HasResult (expand m expander s)
unfolding expand
expand-total m expander s clean =
    expand_loop-total (suc (count m s)) m expander 0 s clean (omega arith)

-- The key `a` has the value `${a}`, any other key too.
abbrev pub names_itself : Bytes → Option Bytes
names_itself key = some (codes "${a}")

-- Where a value names its own key, no number of rounds is enough: the loop of `expand` does not
-- end on that key.
pub expand_never_ends : (fuel : ℕ) → expand_loop fuel b'$' names_itself 0 (codes "${a}") ≡ none
unfolding expand_loop expand_at range_of find_sub
expand_never_ends zero = refl
expand_never_ends (suc fuel) = expand_never_ends fuel
