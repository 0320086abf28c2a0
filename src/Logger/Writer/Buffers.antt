-- ===== src/Logger/Writer/Buffers.antt =====
-- How one character changes the buffers and what was written.
use libudjat.Base.{
  ℕ, ◌≡◌, refl, sym, ap, subst, ◌∙◌, inl, inr, true, false, ◌&&◌, Option, List, [], ◌∷◌, ◌++◌,
  append-nil, arith, ◌==◌, if◌then◌else◌, ==_refl, Bool-cases, Bytes, c_str,
}
use libudjat.Text.Strip.{chomp}
use libudjat.Logger.Writer.{
  is_of, text_of, set_text, remove, ends_line, kept, line_of, overflow, Buffer, Streams,
}

-- What was written of one thread and level.
abbrev pub written_by : ℕ → ℕ → List Buffer → List Buffer
written_by thread level [] = []
written_by thread level (b ∷ bs) =
    let rest = written_by thread level bs in if is_of thread level b then b ∷ rest else rest

-- No two buffers have the same thread and level.
abbrev pub AllOther : ℕ → ℕ → List Buffer → Type 0
AllOther thread level [] = Unit
AllOther thread level (b ∷ bs) = (is_of thread level b ≡ false) × AllOther thread level bs

abbrev pub Distinct : List Buffer → Type 0
Distinct [] = Unit
Distinct (b ∷ bs) = AllOther b.thread b.level bs × Distinct bs

text_of-AllOther : (t l : ℕ) (bs : List Buffer) → AllOther t l bs → text_of t l bs ≡ []
text_of-AllOther t l [] h = refl
text_of-AllOther t l (b ∷ bs) (h, hs) = rw h (text_of-AllOther t l bs hs)

is_of_same : (t l : ℕ) (b : Buffer) → is_of t l b ≡ true → (b.thread ≡ t) × (b.level ≡ l)
is_of_same t l b h = (ground arith, ground arith)

-- `t`, `l` is the one that puts a character out, and `u`, `m` any.
text_of-set_text :
    (t l u m : ℕ) (x : Bytes) (bs : List Buffer)
    → text_of u m (set_text t l x bs) ≡ (if l == m && t == u then x else text_of u m bs)
text_of-set_text t l u m x [] = ground arith
text_of-set_text t l u m x (b ∷ bs) = ground (arith, text_of-set_text t l u m x bs)

text_of-remove_self : (t l : ℕ) (bs : List Buffer) → Distinct bs → text_of t l (remove t l bs) ≡ []
text_of-remove_self t l [] d = refl
text_of-remove_self t l (b ∷ bs) (o, d) = elim (Bool-cases (is_of t l b)) [
  | inl same ↦ rw same (text_of-AllOther t l bs (moved (is_of_same t l b same)))
  | inr other ↦ rw other (rw other (text_of-remove_self t l bs d))
]
  where
    moved : (b.thread ≡ t) × (b.level ≡ l) → AllOther t l bs
    moved (e, f) = subst (λ u. AllOther u l bs) e (subst (λ m. AllOther b.thread m bs) f o)

text_of-remove_other :
    (t l u m : ℕ) (bs : List Buffer)
    → (l == m && t == u) ≡ false
    → text_of u m (remove t l bs) ≡ text_of u m bs
text_of-remove_other t l u m [] h = refl
text_of-remove_other t l u m (b ∷ bs) h = ground (arith, text_of-remove_other t l u m bs h)

AllOther-set_text :
    (t l u m : ℕ) (x : Bytes) (bs : List Buffer)
    → (l == m && t == u) ≡ false
    → AllOther u m bs
    → AllOther u m (set_text t l x bs)
AllOther-set_text t l u m x [] h o = ground arith
AllOther-set_text t l u m x (b ∷ bs) h (o, os) = ground (arith, AllOther-set_text t l u m x bs h os)

AllOther-remove : (t l u m : ℕ) (bs : List Buffer) → AllOther u m bs → AllOther u m (remove t l bs)
AllOther-remove t l u m [] o = tt
AllOther-remove t l u m (b ∷ bs) (o, os) = ground (arith, AllOther-remove t l u m bs os)

set_text-Distinct :
    (t l : ℕ) (x : Bytes) (bs : List Buffer) → Distinct bs → Distinct (set_text t l x bs)
set_text-Distinct t l x [] d = (tt, tt)
set_text-Distinct t l x (b ∷ bs) (o, d) = elim (Bool-cases (is_of t l b)) [
  | inl same ↦ rw same ((o, d))
  | inr other ↦ rw other (
      (AllOther-set_text t l b.thread b.level x bs (flipped other) o, set_text-Distinct t l x bs d))
]
  where
    flipped : is_of t l b ≡ false → (l == b.level && t == b.thread) ≡ false
    flipped h = ground arith

remove-Distinct : (t l : ℕ) (bs : List Buffer) → Distinct bs → Distinct (remove t l bs)
remove-Distinct t l [] d = tt
remove-Distinct t l (b ∷ bs) (o, d) = elim (Bool-cases (is_of t l b)) [
  | inl same ↦ rw same d
  | inr other ↦ rw other ((AllOther-remove t l b.thread b.level bs o, remove-Distinct t l bs d))
]

pub overflow-Distinct :
    (t l : ℕ) (c : Option ℕ) (s : Streams)
    → Distinct s.buffers
    → Distinct (overflow t l c s).buffers
unfolding overflow
overflow-Distinct t l c s d = elim (Bool-cases (ends_line c)) [
  | inl ended ↦ rw ended (remove-Distinct t l s.buffers d)
  | inr going ↦ rw going (set_text-Distinct t l _ s.buffers d)
]

written_by-append :
    (t l : ℕ) (xs ys : List Buffer)
    → written_by t l (xs ++ ys) ≡ written_by t l xs ++ written_by t l ys
written_by-append t l [] ys = refl
written_by-append t l (x ∷ xs) ys = ground (arith, written_by-append t l xs ys)

written_by-line_of :
    (t l u m : ℕ) (x : Bytes)
    → written_by u m (line_of t l x) ≡ (if l == m && t == u then line_of t l x else [])
unfolding line_of
written_by-line_of t l u m x = by_text (c_str (chomp x))
  where
    line : Bytes → List Buffer
    line [] = []
    line (c ∷ cs) = record { thread = t; level = l; text = c ∷ cs } ∷ []

    by_text : (y : Bytes) → written_by u m (line y) ≡ (if l == m && t == u then line y else [])
    by_text [] = ground arith
    by_text (c ∷ cs) = ground arith

-- A character of another thread or level.
pub overflow_other :
    (t l u m : ℕ) (c : Option ℕ) (s : Streams)
    → (l == m && t == u) ≡ false
    → (written_by u m (overflow t l c s).written ≡ written_by u m s.written)
      × (text_of u m (overflow t l c s).buffers ≡ text_of u m s.buffers)
unfolding overflow
overflow_other t l u m c s h = elim (Bool-cases (ends_line c)) [
  | inl ended ↦ rw ended ((written, text_of-remove_other t l u m s.buffers h))
  | inr going ↦ rw going ((refl, text_of-set_text t l u m _ s.buffers ∙ rw h refl))
]
  where
    written :
        written_by u m (s.written ++ line_of t l (text_of t l s.buffers)) ≡ written_by u m s.written
    written =
        written_by-append u m s.written _
        ∙ ap (λ x. written_by u m s.written ++ x)
            (written_by-line_of t l u m (text_of t l s.buffers) ∙ rw h refl)
        ∙ append-nil (written_by u m s.written)

-- A character of the same one.
pub overflow_same :
    (t l : ℕ) (c : Option ℕ) (s : Streams)
    → Distinct s.buffers
    → (written_by t l (overflow t l c s).written
        ≡ written_by t l s.written
          ++ (if ends_line c then line_of t l (text_of t l s.buffers) else []))
      × (text_of t l (overflow t l c s).buffers
          ≡ (if ends_line c then [] else text_of t l s.buffers ++ kept c))
unfolding overflow
overflow_same t l c s d = elim (Bool-cases (ends_line c)) [
  | inl ended ↦ rw ended ((written, text_of-remove_self t l s.buffers d))
  | inr going ↦ rw going (
      (
        sym (append-nil (written_by t l s.written)),
        text_of-set_text t l t l _ s.buffers ∙ rw (==_refl l, ==_refl t) refl,
      ))
]
  where
    written :
        written_by t l (s.written ++ line_of t l (text_of t l s.buffers))
        ≡ written_by t l s.written ++ line_of t l (text_of t l s.buffers)
    written =
        written_by-append t l s.written _
        ∙ ap (λ x. written_by t l s.written ++ x)
            (written_by-line_of t l t l (text_of t l s.buffers) ∙ rw (==_refl l, ==_refl t) refl)
