-- ===== src/Quark/Same.antt =====
-- Equal texts have the same quark.
use libudjat.Base.{
  ℕ, ◌≡◌, refl, sym, subst, ◌∙◌, inl, inr, Bool, true, false, none, some, List, [], ◌∷◌, ==_refl,
  ==_ne, Option-cases, Bytes, Among, bytes_eq,
}
use libudjat.Quark.{search, write, insert, intern, Quarks}

bytes_eq_refl : (xs : Bytes) → bytes_eq xs xs ≡ true
unfolding bytes_eq
bytes_eq_refl [] = refl
bytes_eq_refl (x ∷ xs) = rw (==_refl x, bytes_eq_refl xs) refl

search_head :
    (memory : ℕ → Bytes) (text : Bytes) (p : ℕ) (ps : List ℕ)
    → memory p ≡ text
    → search memory text (p ∷ ps) ≡ some p
unfolding search
search_head memory text p ps e =
    rw (subst (λ t. bytes_eq (memory p) t ≡ true) e (bytes_eq_refl (memory p))) refl

-- A new text does not change the search where its address does not stand.
search-write :
    (memory : ℕ → Bytes) (address : ℕ) (new text : Bytes) (ps : List ℕ)
    → (Among address ps → ⊥)
    → search (write address new memory) text ps ≡ search memory text ps
unfolding search
search-write memory address new text [] h = refl
search-write memory address new text (p ∷ ps) h =
    rw
      (
        ==_ne p address (λ e. h (inl (sym e))),
        search-write memory address new text ps (λ m. h (inr m)),
      )
      refl

intern-stored :
    (address : ℕ) (copy : Bool) (value p : ℕ) (s : Quarks)
    → search s.memory (s.memory value) s.stored ≡ some p
    → intern address copy value s ≡ (p, s)
unfolding intern
intern-stored address copy value p s h = rw (h, intern) refl

intern-allocated :
    (address : ℕ) (copy : Bool) (value p : ℕ) (s : Quarks)
    → search s.memory (s.memory value) s.stored ≡ none
    → search s.memory (s.memory value) s.allocated ≡ some p
    → intern address copy value s ≡ (p, s)
unfolding intern
intern-allocated address copy value p s h k = rw (h, k, intern) refl

intern-insert :
    (address : ℕ) (copy : Bool) (value : ℕ) (s : Quarks)
    → search s.memory (s.memory value) s.stored ≡ none
    → search s.memory (s.memory value) s.allocated ≡ none
    → intern address copy value s ≡ insert address copy value s
unfolding intern
intern-insert address copy value s h k = rw (h, k, intern) refl

-- Any pointer to an equal text gives the same pointer, and changes nothing.
abbrev pub GivesAgain : Bytes → ℕ × Quarks → Type 0
GivesAgain text r =
    (address : ℕ) (copy : Bool) (value : ℕ)
    → r.1.memory value ≡ text
    → intern address copy value r.1 ≡ r

insert-GivesAgain :
    (address : ℕ) (copy : Bool) (value : ℕ) (s : Quarks)
    → (Among address s.stored → ⊥)
    → search s.memory (s.memory value) s.stored ≡ none
    → GivesAgain (s.memory value) (insert address copy value s)
unfolding insert
insert-GivesAgain address true value s new h a c v same =
    intern-allocated a c v address (insert address true value s).1
      (subst (λ t. search (write address (s.memory value) s.memory) t s.stored ≡ none) (sym same)
        (search-write s.memory address (s.memory value) (s.memory value) s.stored new ∙ h))
      (search_head (write address (s.memory value) s.memory) _ address s.allocated
        (written ∙ sym same))
  where
    written : write address (s.memory value) s.memory address ≡ s.memory value
    written = rw (==_refl address) refl
insert-GivesAgain address false value s new h a c v same =
    intern-stored a c v value (insert address false value s).1
      (search_head s.memory _ value s.stored (sym same))

-- What `find` gives for a text, it gives for every pointer to an equal text afterwards, copied or
-- not, and the sets stay as they are then; `new` must not give an address that is already stored.
pub intern-GivesAgain :
    (address : ℕ) (copy : Bool) (value : ℕ) (s : Quarks)
    → (Among address s.stored → ⊥)
    → GivesAgain (s.memory value) (intern address copy value s)
intern-GivesAgain address copy value s new =
    elim (Option-cases (search s.memory (s.memory value) s.stored)) [
      | inr (p, e) ↦
          subst (GivesAgain (s.memory value)) (sym (intern-stored address copy value p s e))
            (λ a c v same.
              intern-stored a c v p s
                (subst (λ t. search s.memory t s.stored ≡ some p) (sym same) e))
      | inl e ↦ elim (Option-cases (search s.memory (s.memory value) s.allocated)) [
        | inr (p, k) ↦
            subst (GivesAgain (s.memory value)) (sym (intern-allocated address copy value p s e k))
              (λ a c v same.
                intern-allocated a c v p s
                  (subst (λ t. search s.memory t s.stored ≡ none) (sym same) e)
                  (subst (λ t. search s.memory t s.allocated ≡ some p) (sym same) k))
        | inl k ↦
            subst (GivesAgain (s.memory value)) (sym (intern-insert address copy value s e k))
              (insert-GivesAgain address copy value s new e)
      ]
    ]
