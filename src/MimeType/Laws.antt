-- ===== src/MimeType/Laws.antt =====
-- Names and extensions are found in the table, and where the index runs over its end.
use mathlib.Core.Option
use libudjat.Base.{
  ℕ, zero, suc, ◌<◌, ◌≡◌, refl, ◌↔◌, inl, inr, Bool, true, false, Option, none, some, List, [], ◌∷◌,
  arith, ltb, ◌==◌, if◌then◌else◌, ltb→lt, ==→eq, Bool-cases, passes_below, passes_below_at, Bytes,
  length,
}
use libudjat.MimeType.{types, mime_type, entry_at, text_in, type_to_string, Entry}

-- Looking a text up, if there is one, gives back the place.
abbrev is_found : Option Bytes → ℕ → Bool
is_found none k = false
is_found (some s) k = mime_type s == k

names_found : passes_below (λ k. is_found (type_to_string k false) k) 27 ≡ true
unfolding passes_below type_to_string mime_type
names_found = refl

extensions_found : passes_below (λ k. is_found (type_to_string k true) k) 27 ≡ true
unfolding passes_below type_to_string mime_type
extensions_found = refl

is_found-some :
    (o : Option Bytes) (k : ℕ)
    → is_found o k ≡ true
    → (s : Bytes) × (o ≡ some s) × (mime_type s ≡ k)
is_found-some none k h = absurd cc
is_found-some (some s) k h = (s, refl, ==→eq (mime_type s) k h)

-- Every type has a name and an extension, and `MimeTypeFactory` finds it again by each of them.
pub mime_type-type_to_string :
    (k : ℕ) (suffix : Bool)
    → k < 27
    → (s : Bytes) × (type_to_string k suffix ≡ some s) × (mime_type s ≡ k)
mime_type-type_to_string k false h = is_found-some _ k (passes_below_at _ 27 k names_found h)
mime_type-type_to_string k true h = is_found-some _ k (passes_below_at _ 27 k extensions_found h)

entry_at_inside :
    (ix : ℕ) (es : List Entry) → ix < length es → (e : Entry) × (entry_at ix es ≡ some e)
unfolding entry_at
entry_at_inside ix [] h = absurd (omega arith)
entry_at_inside zero (e ∷ es) h = (e, refl)
entry_at_inside (suc ix) (e ∷ es) h = entry_at_inside ix es (omega arith)

entry_at_end : (es : List Entry) → entry_at (length es) es ≡ none
unfolding entry_at
entry_at_end [] = refl
entry_at_end (e ∷ es) = entry_at_end es

text_in-none :
    (es : List Entry) (ix : ℕ) (suffix : Bool)
    → 0 < length es
    → (text_in es ix suffix ≡ none) ↔ (ix ≡ length es)
unfolding text_in
text_in-none [] ix suffix h = absurd (omega arith)
text_in-none (e ∷ es) ix suffix h = elim (Bool-cases (ltb (length (e ∷ es)) ix)) [
  | inl big ↦ rw big (λ h. absurd cc, λ h. absurd (ground arith))
  | inr small ↦ rw small (forth small, λ h. rw (h, entry_at_end (e ∷ es)))
]
  where
    forth :
        ltb (length (e ∷ es)) ix ≡ false
        → Option.map (λ (x : Entry). if suffix then x.ext else x.str) (entry_at ix (e ∷ es)) ≡ none
        → ix ≡ length (e ∷ es)
    forth small h = elim (Bool-cases (ltb ix (length (e ∷ es)))) [
      | inl inside ↦
          let (x, f) = entry_at_inside ix (e ∷ es) (ltb→lt _ _ inside) in ground (arith, f)
      | inr outside ↦ ground arith
    ]

-- `to_string` reads behind the table for one index, the number of its entries, and for no other.
pub type_to_string_overruns :
    (ix : ℕ) (suffix : Bool) → (type_to_string ix suffix ≡ none) ↔ (ix ≡ 27)
unfolding type_to_string
type_to_string_overruns ix suffix = text_in-none types ix suffix (omega arith)
