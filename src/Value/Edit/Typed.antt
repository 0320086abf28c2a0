-- ===== src/Value/Edit/Typed.antt =====
-- The type of what is set from a text.
use libudjat.Level.{level_factory}
use libudjat.Base.{
  ℕ, ◌≡◌, refl, subst, ◌∙◌, Option, none, some, [], ◌∷◌, Bytes, ◌>>=◌, Result, err, ok,
}
use libudjat.Value.{
  type_of, clear, lookup, put_member, ValueType, Value, Members, undefined_type, array_type,
  object_type, string_type, timestamp_type, signed_type, unsigned_type, real_type, boolean_type,
  fraction_type, icon_type, url_type, state_type, report_type, undefined, array, object, text,
  timestamp, signed, boolean, unsigned, state, real, fraction, report, no_members,
}
use libudjat.Value.Order.{bytes_eq_refl}
use libudjat.Value.Merge.{lookup-put_member}
use libudjat.Value.Edit.{read, set_some, cleared, set_from, edit_member, Readers, EditError}

-- A value that is given back is of the type.
abbrev pub HasType : ValueType → Result EditError Value → Type 0
HasType t (err e) = Unit
HasType t (ok v) = type_of v ≡ t

read-HasType :
    (t : ValueType) (f : ℕ → Value) (o : Option ℕ)
    → ((n : ℕ) → type_of (f n) ≡ t)
    → HasType t (read f o)
read-HasType t f none h = tt
read-HasType t f (some n) h = h n

set_some-HasType : (r : Readers) (s : Bytes) (t : ValueType) → HasType t (set_some r s t)
unfolding set_some
set_some-HasType r s undefined_type = refl
set_some-HasType r s array_type = tt
set_some-HasType r s object_type = tt
set_some-HasType r s string_type = refl
set_some-HasType r s icon_type = refl
set_some-HasType r s url_type = refl
set_some-HasType r s timestamp_type = read-HasType timestamp_type timestamp (r.time s) (λ n. refl)
set_some-HasType r s signed_type = read-HasType signed_type signed (r.stoi s) (λ n. refl)
set_some-HasType r s unsigned_type = read-HasType unsigned_type unsigned _ (λ n. refl)
set_some-HasType r s real_type = read-HasType real_type real (r.stod s) (λ n. refl)
set_some-HasType r s fraction_type = read-HasType fraction_type fraction (r.stod s) (λ n. refl)
set_some-HasType r s boolean_type = read-HasType boolean_type boolean _ (λ n. refl)
set_some-HasType r s state_type = read-HasType state_type state (level_factory s) (λ n. refl)
set_some-HasType r s report_type = tt

clear-HasType : (t : ValueType) → HasType t (cleared (clear t))
clear-HasType undefined_type = refl
clear-HasType array_type = refl
clear-HasType object_type = refl
clear-HasType string_type = refl
clear-HasType icon_type = refl
clear-HasType url_type = refl
clear-HasType timestamp_type = refl
clear-HasType signed_type = refl
clear-HasType unsigned_type = refl
clear-HasType real_type = refl
clear-HasType fraction_type = refl
clear-HasType boolean_type = refl
clear-HasType state_type = refl
clear-HasType report_type = tt

set_from-HasType : (r : Readers) (s : Bytes) (t : ValueType) → HasType t (set_from r s t)
unfolding set_from
set_from-HasType r [] t = clear-HasType t
set_from-HasType r (c ∷ cs) t = set_some-HasType r (c ∷ cs) t

-- What is given back is an object, and its member `name` is of the type.
abbrev pub HoldsTyped : ValueType → Bytes → Result EditError Value → Type 0
HoldsTyped t name (err e) = Unit
HoldsTyped t name (ok w) =
    (ms : Members) × (u : Value) × (w ≡ object ms) × (lookup name ms ≡ some u) × (type_of u ≡ t)

put_member-HoldsTyped :
    (t : ValueType) (name : Bytes) (new : Result EditError Value) (ms : Members)
    → HasType t new
    → HoldsTyped t name (new >>= λ u. ok (object (put_member name u ms)))
put_member-HoldsTyped t name (err e) ms h = tt
put_member-HoldsTyped t name (ok u) ms h = (
  put_member name u ms,
  u,
  refl,
  lookup-put_member name name u ms ∙ rw (bytes_eq_refl name) refl,
  h,
)

edit_member-HoldsTyped :
    (r : Readers) (s : Bytes) (t : ValueType) (name : Bytes) (v : Value)
    → HoldsTyped t name (edit_member name (λ old. set_from r s t) v)
unfolding edit_member
edit_member-HoldsTyped r s t name undefined =
    put_member-HoldsTyped t name (set_from r s t) no_members (set_from-HasType r s t)
edit_member-HoldsTyped r s t name (object ms) =
    put_member-HoldsTyped t name (set_from r s t) ms (set_from-HasType r s t)
edit_member-HoldsTyped r s t name (array xs) = tt
edit_member-HoldsTyped r s t name (text k o) = tt
edit_member-HoldsTyped r s t name (timestamp n) = tt
edit_member-HoldsTyped r s t name (signed n) = tt
edit_member-HoldsTyped r s t name (boolean n) = tt
edit_member-HoldsTyped r s t name (unsigned n) = tt
edit_member-HoldsTyped r s t name (state n) = tt
edit_member-HoldsTyped r s t name (real n) = tt
edit_member-HoldsTyped r s t name (fraction n) = tt
edit_member-HoldsTyped r s t name (report n) = tt

-- When a member of a value is set from a text as a type, and no exception is thrown, the value is an
-- object whose member is of exactly this type, whatever stood there and whatever the text is.
pub edit_member-type_of :
    (r : Readers) (s : Bytes) (t : ValueType) (name : Bytes) (v w : Value)
    → edit_member name (λ old. set_from r s t) v ≡ ok w
    → (ms : Members) × (u : Value) × (w ≡ object ms) × (lookup name ms ≡ some u) × (type_of u ≡ t)
edit_member-type_of r s t name v w h =
    subst (HoldsTyped t name) h (edit_member-HoldsTyped r s t name v)
