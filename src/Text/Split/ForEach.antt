-- ===== src/Text/Split/ForEach.antt =====
-- Where `for_each` cuts: it skips the blanks behind the delimiter before it measures the value.
use libudjat.Base.{
  ℕ, suc, ◌-◌, ◌<◌, ◌≡◌, ap, ◌∙◌, Bool, true, some, [], ◌∷◌, ◌++◌, append_assoc, arith, Bytes,
  length, take, length-append, take-append, IsText, c_str-IsText, IsText-append, is_space,
}
use libudjat.Text.Strip.{chug, strip}
use libudjat.Text.Strip.Laws.{IsChugged, chug-IsChugged}
use libudjat.Text.Split.{for_each_loop, for_each}
use libudjat.Text.Split.RoundTrip.{Lacks, find_sub-found, drop_found}

abbrev pub stop : Bytes → Bool
stop value = true

take_plain : (d : ℕ) (p t : Bytes) → take (length (p ++ (d ∷ t)) - length t - 1) (p ++ (d ∷ t)) ≡ p
take_plain d p t =
    let e : length (p ++ (d ∷ t)) - length t - 1 ≡ length p =
      omega (arith, length-append p (d ∷ t)) in
    rw e (take-append p (d ∷ t))

take_blank :
    (d c : ℕ) (p t : Bytes)
    → take (length (p ++ (d ∷ c ∷ t)) - length t - 1) (p ++ (d ∷ c ∷ t)) ≡ p ++ d ∷ []
take_blank d c p t =
    let e : length (p ++ (d ∷ c ∷ t)) - length t - 1 ≡ length (p ++ d ∷ []) =
      omega (arith, length-append p (d ∷ c ∷ t), length-append p (d ∷ [])) in
    rw (e, ← append_assoc p (d ∷ []) (c ∷ t)) (take-append (p ++ d ∷ []) (c ∷ t))

for_each_first :
    (fuel d : ℕ) (p r t : Bytes)
    → Lacks d p
    → chug r ≡ t
    → for_each_loop (suc fuel) (d ∷ []) stop [] (p ++ (d ∷ r))
      ≡ some (true, strip (take (length (p ++ (d ∷ r)) - length t - 1) (p ++ (d ∷ r))) ∷ [])
unfolding for_each_loop
for_each_first fuel d [] r t h e = rw (find_sub-found d [] r h, for_each_loop) (rw e)
for_each_first fuel d (c ∷ p) r t h e =
    rw (find_sub-found d (c ∷ p) r h, for_each_loop) (rw (drop_found d (c ∷ p) r, e))

chug_skip : (c : ℕ) (t : Bytes) → is_space c ≡ true → chug (c ∷ t) ≡ chug t
unfolding chug
chug_skip c t b = rw b

-- The first value that `for_each` passes on is the text before the delimiter if no blank follows
-- that; if one blank follows, the delimiter is passed on as a part of the value. The texts hold no 0.
pub for_each_keeps_delimiter :
    (d c : ℕ) (p t : Bytes)
    → IsText p
    → IsText t
    → 0 < d
    → 0 < c
    → Lacks d p
    → IsChugged t
    → is_space c ≡ true
    → (for_each (d ∷ []) stop (p ++ (d ∷ t)) ≡ some (true, strip p ∷ []))
      × (for_each (d ∷ []) stop (p ++ (d ∷ c ∷ t)) ≡ some (true, strip (p ++ d ∷ []) ∷ []))
unfolding for_each
for_each_keeps_delimiter d c p t np nt nd nc h k b = (
  rw (c_str-IsText (p ++ (d ∷ t)) (IsText-append p (d ∷ t) np (nd, nt))) (
      for_each_first (length (p ++ (d ∷ t))) d p t t h (chug-IsChugged t k)
      ∙ ap (λ v. some (true, strip v ∷ [])) (take_plain d p t)),
  rw (c_str-IsText (p ++ (d ∷ c ∷ t)) (IsText-append p (d ∷ c ∷ t) np (nd, (nc, nt)))) (
      for_each_first (length (p ++ (d ∷ c ∷ t))) d p (c ∷ t) t h
        (chug_skip c t b ∙ chug-IsChugged t k)
      ∙ ap (λ v. some (true, strip v ∷ [])) (take_blank d c p t)),
)
