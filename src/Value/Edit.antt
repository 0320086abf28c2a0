-- ===== src/Value/Edit.antt =====
-- src/library/tools/value/set.cc and get.cc: a value from a text, and what is added to a value. The
-- functions that read numbers and times, of the C++ library and TimeStamp, are parameters: `none` is
-- an exception. A double is its 64 bits.
pub mod Typed
use mathlib.Core.Option
use libudjat.Base.{
  ℕ, zero, suc, ◌%◌, ◌^◌, Bool, true, false, Option, none, some, [], ◌∷◌, ◌==◌, if◌then◌else◌,
  Bytes, ◌>>=◌, Result, err, ok,
}
use libudjat.Value.{
  clear, lookup, put_member, found_or_new, ValueType, Value, Items, Members, Error, undefined_type,
  array_type, object_type, string_type, timestamp_type, signed_type, unsigned_type, real_type,
  boolean_type, fraction_type, icon_type, url_type, state_type, report_type, string, icon, url,
  undefined, array, object, text, timestamp, signed, boolean, unsigned, state, real, fraction,
  no_items, item, no_members, member,
}
use libudjat.Level.{level_factory}

pub record Readers : Type 0 where
  pub time : Bytes → Option ℕ
  pub stoi : Bytes → Option ℕ
  pub stoul : Bytes → Option ℕ
  pub stod : Bytes → Option ℕ
  pub as_bool : Bytes → Option Bool

pub data EditError : Type 0 where
  set_from_text unreadable reserved is_no_array is_no_object too_far cannot_append cannot_merge :
      EditError

abbrev pub read : (ℕ → Value) → Option ℕ → Result EditError Value
read f none = err unreadable
read f (some n) = ok (f n)

-- `set(value,type)`, of a text that is not empty.
unfoldable pub set_some : Readers → Bytes → ValueType → Result EditError Value
unfolding level_factory
set_some r s undefined_type = ok undefined
set_some r s array_type = err set_from_text
set_some r s object_type = err set_from_text
set_some r s string_type = ok (text string (some s))
set_some r s icon_type = ok (text icon (some s))
set_some r s url_type = ok (text url (some s))
set_some r s timestamp_type = read timestamp (r.time s)
set_some r s signed_type = read signed (r.stoi s)
set_some r s unsigned_type = read unsigned (Option.map (λ n. n % 2 ^ 32) (r.stoul s))
set_some r s real_type = read real (r.stod s)
set_some r s fraction_type = read fraction (r.stod s)
set_some r s boolean_type = read boolean (Option.map (λ b. if b then 1 else 0) (r.as_bool s))
set_some r s state_type = read state (level_factory s)
set_some r s report_type = err reserved

abbrev pub cleared : Result Error Value → Result EditError Value
cleared (err e) = err reserved
cleared (ok v) = ok v

-- `set(value,type)`: an empty text only clears.
unfoldable pub set_from : Readers → Bytes → ValueType → Result EditError Value
unfolding set_some
set_from r [] t = cleared (clear t)
set_from r (c ∷ cs) t = set_some r (c ∷ cs) t

-- `append(type)`: a value with a new item at its end.
abbrev pub add_item : Items → Value → Items
add_item no_items new = item new no_items
add_item (item v xs) new = item v (add_item xs new)

unfoldable pub append_item : ValueType → Value → Result EditError Value
append_item t undefined = do new ← cleared (clear t); ok (array (item new no_items))
append_item t (array xs) = do new ← cleared (clear t); ok (array (add_item xs new))
append_item t _ = err is_no_array

-- `append(name,type)`: the tests are of the argument, which hides the type of the value. What the
-- value is afterwards, and the exception; a value that is no object is undefined behaviour.
unfoldable pub append_member : Bytes → ValueType → Value → Value × Option EditError
unfolding put_member
append_member name undefined_type v = (object no_members, some cannot_append)
append_member name object_type (object ms) = (object (put_member name (object no_members) ms), none)
append_member name object_type v = (v, some is_no_object)
append_member name t v = (v, some cannot_append)

-- `contains`
unfoldable pub contains : Bytes → Value → Bool
unfolding lookup
contains name (object ms) = elim (lookup name ms) [ none ↦ false | some v ↦ true ]
contains name _ = false

-- `operator [](name)`, and what is done to the member.
unfoldable pub edit_member :
    Bytes → (Value → Result EditError Value) → Value → Result EditError Value
unfolding lookup put_member
edit_member name f undefined = do new ← f undefined; ok (object (put_member name new no_members))
edit_member name f (object ms) = do
  new ← f (found_or_new (lookup name ms))
  ok (object (put_member name new ms))
edit_member name f _ = err is_no_object

-- `operator [](ix) const`, of a place that is not negative.
abbrev pub item_at : Items → ℕ → Option Value
item_at no_items ix = none
item_at (item v xs) zero = some v
item_at (item v xs) (suc ix) = item_at xs ix

abbrev pub member_at : Members → ℕ → Option Value
member_at no_members ix = none
member_at (member k v ms) zero = some v
member_at (member k v ms) (suc ix) = member_at ms ix

abbrev pub or_too_far : Option Value → Result EditError Value
or_too_far none = err too_far
or_too_far (some v) = ok v

abbrev pub at : ℕ → Value → Result EditError Value
at ix (array xs) = or_too_far (item_at xs ix)
at ix (object ms) = or_too_far (member_at ms ix)
at ix v = if ix == 0 then ok v else err too_far
