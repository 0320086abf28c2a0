-- ===== src/Logger/Verbosity.antt =====
-- The number of levels that are enabled, and levels by name.
use libudjat.Base.{
  ℕ, ◌^◌, ◌<◌, ◌≡◌, refl, ap, ◌∙◌, false, List, [], ◌∷◌, arith, ltb, if◌then◌else◌, Bytes, codes,
  is_digit, case_eq,
}
use libudjat.Text.Split.{split}
use libudjat.Text.Strip.{strip}
use libudjat.Logger.{
  type_names, verbosity, set_verbosity, enable_name, enable_names, or_nil, verbosity_text, Options,
}

-- `verbosity()` gives back the number that was set, up to the number of levels.
pub verbosity-set_verbosity :
    (n : ℕ) (o : Options) → n < 2 ^ 16 → verbosity (set_verbosity n o) ≡ (if ltb n 5 then n else 5)
unfolding verbosity set_verbosity
verbosity-set_verbosity n o h = ground arith

enable_name-nil : (o : Options) → enable_name 0 type_names [] o ≡ o
unfolding enable_name case_eq
enable_name-nil o = refl

enable_names_same : (names : List Bytes) (o : Options) → enable_names names o ≡ o
unfolding enable_names
enable_names_same [] o = refl
enable_names_same (lvl ∷ rest) o = by_name (strip lvl) (enable_names_same rest o)
  where
    by_name :
        (s : Bytes)
        → enable_names rest o ≡ o
        → elim s as (λ s. Options) [
          | [] ↦ enable_names rest (enable_name 0 type_names [] o)
          | c ∷ cs ↦ enable_names rest o
        ]
          ≡ o
    by_name [] ih = ap (enable_names rest) (enable_name-nil o) ∙ ih
    by_name (c ∷ cs) ih = ih

-- A text that does not begin with a digit enables no level, whatever names it has: the test that is
-- to pass over empty names passes over all others.
pub verbosity_text_ignores_names :
    (c : ℕ) (cs : Bytes) (o : Options) → is_digit c ≡ false → verbosity_text (c ∷ cs) o ≡ o
unfolding verbosity_text
verbosity_text_ignores_names c cs o h =
    rw h (enable_names_same (or_nil (split (codes ",") 0 (c ∷ cs))) o)
