-- ===== src/Text/Strip/Laws.antt =====
-- What `strip` removes and what it leaves.
use libudjat.Base.{
  ℕ, suc, ◌≡◌, refl, sym, ap, subst, ◌∙◌, inl, inr, true, false, [], ◌∷◌, ◌++◌, append-nil,
  append_assoc, arith, if◌then◌else◌, Bool-cases, Bytes, length, get_or, length-append, take-append,
  All, is_space,
}
use libudjat.Text.Strip.{chomp_loop, chomp, chug, strip}

abbrev pub AreSpaces : Bytes → Type 0
AreSpaces = All (λ c. is_space c ≡ true)

-- No blank at the front.
abbrev pub IsChugged : Bytes → Type 0
IsChugged [] = Unit
IsChugged (c ∷ cs) = is_space c ≡ false

-- No blank at the end.
abbrev pub IsChomped : Bytes → Type 0
IsChomped [] = Unit
IsChomped (c ∷ []) = is_space c ≡ false
IsChomped (c ∷ d ∷ cs) = IsChomped (d ∷ cs)

abbrev pub IsTrimmed : Bytes → Type 0
IsTrimmed s = IsChugged s × IsChomped s

pub chug-IsChugged : (s : Bytes) → IsChugged s → chug s ≡ s
unfolding chug
chug-IsChugged [] h = refl
chug-IsChugged (c ∷ cs) h = rw h

chug_splits : (s : Bytes) → (p : Bytes) × (s ≡ p ++ chug s) × AreSpaces p × IsChugged (chug s)
unfolding chug
chug_splits [] = ([], refl, tt, tt)
chug_splits (c ∷ cs) = elim (Bool-cases (is_space c)) [
  | inl e ↦ let (p, s, a, h) = chug_splits cs in rw e (c ∷ p, ap (◌∷◌ c) s, (e, a), h)
  | inr e ↦ rw e ([], refl, tt, e)
]

-- The text up to a position, and one character more.
get_or-append : (s : Bytes) (c : ℕ) → get_or (s ++ c ∷ []) (length s) 0 ≡ c
get_or-append [] c = refl
get_or-append (x ∷ xs) c = get_or-append xs c

IsChomped-append : (s : Bytes) (c : ℕ) → is_space c ≡ false → IsChomped (s ++ c ∷ [])
IsChomped-append [] c h = h
IsChomped-append (x ∷ []) c h = h
IsChomped-append (x ∷ y ∷ s) c h = IsChomped-append (y ∷ s) c h

-- Lists from the back.
data Snoc : Bytes → Type 0 where
  empty : Snoc []
  snoc : {s t : Bytes} (c : ℕ) → Snoc s → t ≡ s ++ c ∷ [] → Snoc t

Snoc-cons : (c : ℕ) {s : Bytes} → Snoc s → Snoc (c ∷ s)
Snoc-cons c empty = snoc c empty refl
Snoc-cons c (snoc d r e) = snoc d (Snoc-cons c r) (ap (◌∷◌ c) e)

Snoc-view : (s : Bytes) → Snoc s
Snoc-view [] = empty
Snoc-view (c ∷ cs) = Snoc-cons c (Snoc-view cs)

length-snoc : (s : Bytes) (c : ℕ) → length (s ++ c ∷ []) ≡ suc (length s)
length-snoc s c = omega (arith, length-append s (c ∷ []))

chomp-append :
    (s : Bytes) (c : ℕ) → chomp (s ++ c ∷ []) ≡ (if is_space c then chomp s else s ++ c ∷ [])
unfolding chomp
chomp-append s c =
    rw (length-snoc s c, chomp_loop) (rw (get_or-append s c) (rw (take-append s (c ∷ []))))

AreSpaces-append : (p : Bytes) (c : ℕ) → AreSpaces p → is_space c ≡ true → AreSpaces (p ++ c ∷ [])
AreSpaces-append [] c h k = (k, tt)
AreSpaces-append (x ∷ p) c h k = (h.0, AreSpaces-append p c h.1 k)

chomp-nil : chomp [] ≡ []
unfolding chomp
chomp-nil = refl

chomp_splits :
    {s : Bytes} → Snoc s → (q : Bytes) × (s ≡ chomp s ++ q) × AreSpaces q × IsChomped (chomp s)
chomp_splits empty = rw chomp-nil ([], refl, tt, tt)
chomp_splits (snoc {s} {t} c r e) = elim (Bool-cases (is_space c)) [
  | inl b ↦
      let (q, f, a, h) = chomp_splits r in
      rw (e, chomp-append s c, b)
        (
          q ++ c ∷ [],
          ap (λ x. x ++ c ∷ []) f ∙ append_assoc (chomp s) q (c ∷ []),
          AreSpaces-append q c a b,
          h,
        )
  | inr b ↦
      rw (e, chomp-append s c, b) ([], sym (append-nil (s ++ c ∷ [])), tt, IsChomped-append s c b)
]

IsChugged-prefix : (m q : Bytes) → IsChugged (m ++ q) → IsChugged m
IsChugged-prefix [] q h = tt
IsChugged-prefix (c ∷ m) q h = h

-- `strip` takes blanks off both ends of any text, and leaves a text with no blank at an end.
pub strip_splits :
    (s : Bytes)
    → (p : Bytes) × (q : Bytes) × (s ≡ p ++ (strip s ++ q))
      × AreSpaces p
      × AreSpaces q
      × IsTrimmed (strip s)
unfolding strip
strip_splits s =
    let (p, e, a, h) = chug_splits s in
    let (q, f, b, k) = chomp_splits (Snoc-view (chug s)) in
    (p, q, e ∙ ap (◌++◌ p) f, a, b, (IsChugged-prefix (chomp (chug s)) q (subst IsChugged f h), k))

chug-AreSpaces : (p t : Bytes) → AreSpaces p → chug (p ++ t) ≡ chug t
unfolding chug
chug-AreSpaces [] t h = refl
chug-AreSpaces (c ∷ p) t h = rw h.0 (chug-AreSpaces p t h.1)

chug_blank : (q : Bytes) → AreSpaces q → chug q ≡ []
unfolding chug
chug_blank [] h = refl
chug_blank (c ∷ q) h = rw h.0 (chug_blank q h.1)

AreSpaces-snoc : (q : Bytes) (c : ℕ) → AreSpaces (q ++ c ∷ []) → AreSpaces q × (is_space c ≡ true)
AreSpaces-snoc [] c h = (tt, h.0)
AreSpaces-snoc (x ∷ q) c h = let (a, b) = AreSpaces-snoc q c h.1 in ((h.0, a), b)

chomp-AreSpaces : {q : Bytes} (m : Bytes) → Snoc q → AreSpaces q → chomp (m ++ q) ≡ chomp m
chomp-AreSpaces m empty h = rw append-nil
chomp-AreSpaces m (snoc {s} {t} c r e) h =
    let (a, b) = AreSpaces-snoc s c (subst AreSpaces e h) in
    rw (e, ← append_assoc m s (c ∷ []), chomp-append (m ++ s) c, b) (chomp-AreSpaces m r a)

IsChomped-snoc : (s : Bytes) (c : ℕ) → IsChomped (s ++ c ∷ []) → is_space c ≡ false
IsChomped-snoc [] c h = h
IsChomped-snoc (x ∷ []) c h = h
IsChomped-snoc (x ∷ y ∷ s) c h = IsChomped-snoc (y ∷ s) c h

chomp-IsChomped : {m : Bytes} → Snoc m → IsChomped m → chomp m ≡ m
chomp-IsChomped empty h = chomp-nil
chomp-IsChomped (snoc {s} {t} c r e) h =
    rw (e, chomp-append s c, IsChomped-snoc s c (subst IsChomped e h))

-- So the result of `strip` is the only trimmed text that blanks on both ends extend to the text.
pub strip_unique :
    (p m q : Bytes) → AreSpaces p → AreSpaces q → IsTrimmed m → strip (p ++ (m ++ q)) ≡ m
unfolding strip
strip_unique p [] q a b h = rw (chug-AreSpaces p q a, chug_blank q b) chomp-nil
strip_unique p (c ∷ m) q a b h =
    rw (chug-AreSpaces p (c ∷ m ++ q) a, chug-IsChugged (c ∷ m ++ q) h.0)
      (chomp-AreSpaces (c ∷ m) (Snoc-view q) b ∙ chomp-IsChomped (Snoc-view (c ∷ m)) h.1)

-- A trimmed text is left as it is.
pub strip-IsTrimmed : (m : Bytes) → IsTrimmed m → strip m ≡ m
strip-IsTrimmed m h = subst (λ x. strip x ≡ m) (append-nil m) (strip_unique [] m [] tt tt h)
