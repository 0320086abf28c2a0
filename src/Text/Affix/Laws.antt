-- ===== src/Text/Affix/Laws.antt =====
-- A prefix is what a text begins with, a suffix what it ends with; the empty text is neither.
use libudjat.Base.{
  ℕ, ◌-◌, ◌≡◌, refl, sym, ap, subst, ◌∙◌, ◌≢◌, ◌↔◌, true, false, some, [], ◌∷◌, ◌++◌, arith, Bytes,
  length, take, length-append, take-append-drop, drop-append, bytes_eq, bytes_eq_sound, n_eq,
}
use libudjat.Text.Affix.{has_prefix, end_of, has_suffix}

n_eq-append : (p t : Bytes) → n_eq (length p) (p ++ t) p ≡ true
unfolding n_eq
n_eq-append [] t = refl
n_eq-append (c ∷ p) t = ground (arith, n_eq-append p t)

n_eq_splits : (p s : Bytes) → n_eq (length p) s p ≡ true → (t : Bytes) × (s ≡ p ++ t)
unfolding n_eq
n_eq_splits [] s h = (s, refl)
n_eq_splits (c ∷ p) [] h = ([], cc)
n_eq_splits (c ∷ p) (d ∷ s) h = let (t, e) = n_eq_splits p s (ground arith) in (t, ground arith)

-- `has_prefix` holds exactly of the texts that begin with the prefix, if that is not empty.
pub has_prefix_iff :
    (s p : Bytes)
    → p ≢ []
    → (has_prefix (some s) (some p) false ≡ true) ↔ ((t : Bytes) × (s ≡ p ++ t))
unfolding has_prefix
has_prefix_iff s [] ne = absurd (ne refl)
has_prefix_iff [] (c ∷ p) ne = (λ h. ([], cc), λ h. cc (h.1))
has_prefix_iff (d ∷ s) (c ∷ p) ne = (
  λ h. n_eq_splits (c ∷ p) (d ∷ s) h,
  λ h. subst (λ x. n_eq (length (c ∷ p)) x (c ∷ p) ≡ true) (sym h.1) (n_eq-append (c ∷ p) h.0),
)

bytes_eq_refl : (s : Bytes) → bytes_eq s s ≡ true
unfolding bytes_eq
bytes_eq_refl [] = refl
bytes_eq_refl (c ∷ s) = ground (arith, bytes_eq_refl s)

end_of-append : (t p : Bytes) → end_of (t ++ p) p ≡ p
end_of-append t p =
    let e : length (t ++ p) - length p ≡ length t = omega (arith, length-append t p) in
    rw e (drop-append t p)

nil-ne-append : (t : Bytes) (c : ℕ) (p : Bytes) → [] ≢ t ++ c ∷ p
nil-ne-append [] c p e = cc
nil-ne-append (x ∷ t) c p e = cc

-- `has_suffix` holds exactly of the texts that end with the suffix, if that is not empty.
pub has_suffix_iff :
    (s p : Bytes)
    → p ≢ []
    → (has_suffix (some s) (some p) false ≡ true) ↔ ((t : Bytes) × (s ≡ t ++ p))
unfolding has_suffix
has_suffix_iff s [] ne = absurd (ne refl)
has_suffix_iff [] (c ∷ p) ne = (λ h. ([], cc), λ h. absurd (nil-ne-append h.0 c p h.1))
has_suffix_iff (d ∷ s) (c ∷ p) ne = (there, back)
  where
    there :
        has_suffix (some (d ∷ s)) (some (c ∷ p)) false ≡ true → (t : Bytes) × (d ∷ s ≡ t ++ c ∷ p)
    there h =
        let n = length (d ∷ s) - length (c ∷ p) in
        (
          take n (d ∷ s),
          sym (take-append-drop n (d ∷ s))
              ∙ ap (◌++◌ (take n (d ∷ s)))
                  (bytes_eq_sound (end_of (d ∷ s) (c ∷ p)) (c ∷ p) (ground arith)),
        )

    back :
        (t : Bytes) × (d ∷ s ≡ t ++ c ∷ p) → has_suffix (some (d ∷ s)) (some (c ∷ p)) false ≡ true
    back h =
        let e : end_of (d ∷ s) (c ∷ p) ≡ c ∷ p =
          subst (λ x. end_of x (c ∷ p) ≡ c ∷ p) (sym h.1) (end_of-append h.0 (c ∷ p)) in
        ground (arith, bytes_eq_refl (c ∷ p), e, ap length h.1, length-append h.0 (c ∷ p))
