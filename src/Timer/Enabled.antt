-- ===== src/Timer/Enabled.antt =====
-- A timer is enabled once at most, whatever is called.
use libudjat.Base.{
  ℕ, ◌+◌, ◌%◌, ◌^◌, ◌≡◌, ◌≢◌, ◌⊎◌, inl, inr, Bool, true, false, List, [], ◌∷◌, ◌++◌, arith, ◌==◌,
  if◌then◌else◌, Bool-cases, Among,
}
use libudjat.Timer.{
  is_enabled, put, set, enable, enable_for, remove, disable, activate, expired, next_of,
  run_expired, compute_poll_timeout, Loop,
}
use libudjat.Timer.Next.{Among-remove}

-- A call of the timers' operations.
pub data Call (s : Loop) : Loop → Type 0 where
  sets : (now timer ms : ℕ) → Call s (set now timer ms s).1
  enables : (now timer : ℕ) → Call s (enable now timer s).1
  enables_for : (now timer ms : ℕ) → Call s (enable_for now timer ms s).1
  disables : (timer : ℕ) → Call s (disable timer s)
  polls :
      (now maxwait : ℕ) (clock : ℕ → ℕ) (throws : ℕ → Bool)
      → Call s (compute_poll_timeout now maxwait clock throws s).1

unfoldable pub Distinct : List ℕ → Type 0
Distinct [] = Unit
Distinct (x ∷ xs) = (Among x xs → ⊥) × Distinct xs

remove-Distinct : (timer : ℕ) (xs : List ℕ) → Distinct xs → Distinct (remove timer xs)
unfolding Distinct remove
remove-Distinct timer [] h = tt
remove-Distinct timer (x ∷ xs) (new, h) = kept (timer == x) (remove-Distinct timer xs h)
  where
    kept :
        (b : Bool)
        → Distinct (remove timer xs)
        → Distinct (if b then remove timer xs else x ∷ remove timer xs)
    kept true ih = ih
    kept false ih = ((λ m. new (Among-remove x timer xs m).0), ih)

Among-append : (x y : ℕ) (xs : List ℕ) → Among x (xs ++ (y ∷ [])) → Among x xs ⊎ (x ≡ y)
Among-append x y [] (inl e) = inr e
Among-append x y [] (inr m) = absurd m
Among-append x y (z ∷ zs) (inl e) = inl (inl e)
Among-append x y (z ∷ zs) (inr m) = elim (Among-append x y zs m) [
  | inl a ↦ inl (inr a)
  | inr b ↦ inr b
]

append-Distinct :
    (timer : ℕ) (xs : List ℕ)
    → is_enabled timer xs ≡ false
    → Distinct xs
    → Distinct (xs ++ (timer ∷ []))
unfolding Distinct
append-Distinct timer [] h d = ((λ m. m), tt)
append-Distinct timer (x ∷ xs) h (new, d) = (still_new, append-Distinct timer xs (ground arith) d)
  where
    differs : (timer == x) ≡ false → x ≢ timer
    differs other e = ground arith

    apart : (Among x xs ⊎ (x ≡ timer)) → ⊥
    apart (inl m) = new m
    apart (inr e) = differs (ground arith) e

    still_new : Among x (xs ++ (timer ∷ [])) → ⊥
    still_new m = apart (Among-append x timer xs m)

if_enabled :
    (b : Bool) (s t : Loop)
    → Distinct s.enabled
    → Distinct t.enabled
    → Distinct (if b then s else t).enabled
if_enabled true s t d e = d
if_enabled false s t d e = e

if_Distinct :
    {A : Type 0} (b : Bool) (r q : A × Loop)
    → Distinct r.1.enabled
    → Distinct q.1.enabled
    → Distinct (if b then r else q).1.enabled
if_Distinct true r q d e = d
if_Distinct false r q d e = e

enable-Distinct :
    (now timer : ℕ) (s : Loop) → Distinct s.enabled → Distinct (enable now timer s).1.enabled
unfolding enable
enable-Distinct now timer s d = elim (Bool-cases (is_enabled timer s.enabled)) [
  | inl known ↦ rw known d
  | inr new ↦ rw new (append-Distinct timer s.enabled new d)
]

activate-Distinct :
    (now : ℕ) (throws : Bool) (timer : ℕ) (s : Loop)
    → Distinct s.enabled
    → Distinct (activate now throws timer s).1.enabled
unfolding activate disable
activate-Distinct now throws timer s d =
    if_Distinct (s.interval timer == 0) _ _ (remove-Distinct timer s.enabled d)
      (if_Distinct throws _ _ (remove-Distinct timer s.enabled d) d)

run_expired-Distinct :
    (clock : ℕ → ℕ) (throws : ℕ → Bool) (xs : List ℕ) (next : ℕ) (s : Loop)
    → Distinct s.enabled
    → Distinct (run_expired clock throws xs next s).1.enabled
unfolding run_expired
run_expired-Distinct clock throws [] next s d = d
run_expired-Distinct clock throws (x ∷ xs) next s d =
    run_expired-Distinct clock throws xs _ _ (activate-Distinct (clock x) (throws x) x s d)

-- No call of an operation makes a timer stand in the list of the enabled ones twice.
pub Call-Distinct : {s t : Loop} → Call s t → Distinct s.enabled → Distinct t.enabled
unfolding set enable_for disable compute_poll_timeout
Call-Distinct {s} (sets now timer ms) d =
    if_Distinct (s.interval timer == ms) _ _ d (if_enabled (ms == 0) _ _ d d)
Call-Distinct {s} (enables now timer) d = enable-Distinct now timer s d
Call-Distinct {s} (enables_for now timer ms) d =
    enable-Distinct now timer (record s { interval = put s.interval timer ms }) d
Call-Distinct {s} (disables timer) d = remove-Distinct timer s.enabled d
Call-Distinct {s} (polls now maxwait clock throws) d =
    run_expired-Distinct clock throws (expired now s.activation_time s.enabled)
      (next_of now s.activation_time ((now + maxwait) % 2 ^ 64) s.enabled) s d
