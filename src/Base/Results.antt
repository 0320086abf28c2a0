-- ===== src/Base/Results.antt =====
-- Results that may be an exception: `err e` for what the source throws.

pub data Result {ℓ} (E : Type 0) (A : Type ℓ) : Type ℓ where
  err : E → Result E A
  ok : A → Result E A

-- What follows a step that may throw.
infixl 5 ◌>>=◌
abbrev pub ◌>>=◌ {ℓ κ} :
    {E : Type 0} {A : Type ℓ} {B : Type κ} → Result E A → (A → Result E B) → Result E B
◌>>=◌ r next = elim r [ err e ↦ err e | ok a ↦ next a ]
