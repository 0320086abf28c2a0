-- ===== src/Value.antt =====
-- src/library/tools/value: a value of any type, as a tree. A `union Content` is the argument of the
-- constructor of its type: an int by its 32 bits, a double by its 64 bits, a report by its address.
-- The texts of doubles, of times and of reports are parameters. What an operation that throws leaves
-- behind in the value is not modelled, nor is a value that is set from itself. All keys come from C texts.

pub mod Text
pub mod Csv
pub mod Json
pub mod Yaml
pub mod Edit
mod Examples
pub mod Order
pub mod Copy
pub mod Merge
use libudjat.Base.{
  ℕ, Bool, true, false, Option, none, some, [], ◌∷◌, ltb, ◌==◌, if◌then◌else◌, Bytes, bytes_eq,
  ◌>>=◌, Result, err, ok,
}

-- `Value::Type`
pub data ValueType : Type 0 where
  undefined_type array_type object_type string_type timestamp_type signed_type : ValueType
  unsigned_type real_type boolean_type fraction_type icon_type url_type : ValueType
  state_type report_type : ValueType

-- The types whose content is a C text.
pub data TextType : Type 0 where
  string icon url : TextType

-- A value, the items of an array, and the members of an object, which a `std::map` keeps in order.
mutual
  pub data Value : Type 0 where
    undefined : Value
    array : Items → Value
    object : Members → Value
    text : TextType → Option Bytes → Value
    timestamp : ℕ → Value
    signed : ℕ → Value
    boolean : ℕ → Value
    unsigned : ℕ → Value
    state : ℕ → Value
    real : ℕ → Value
    fraction : ℕ → Value
    report : ℕ → Value

  pub data Items : Type 0 where
    no_items : Items
    item : Value → Items → Items

  pub data Members : Type 0 where
    no_members : Members
    member : Bytes → Value → Members → Members

pub data Error : Type 0 where
  reserved_type cant_copy_report cant_merge invalid_type : Error

abbrev pub type_of : Value → ValueType
type_of undefined = undefined_type
type_of (array xs) = array_type
type_of (object ms) = object_type
type_of (text string s) = string_type
type_of (text icon s) = icon_type
type_of (text url s) = url_type
type_of (timestamp n) = timestamp_type
type_of (signed n) = signed_type
type_of (boolean n) = boolean_type
type_of (unsigned n) = unsigned_type
type_of (state n) = state_type
type_of (real n) = real_type
type_of (fraction n) = fraction_type
type_of (report n) = report_type

-- `clear(type)`: what a value is after it, whatever it was. The bits of the double 0 are 0.
abbrev pub clear : ValueType → Result Error Value
clear undefined_type = ok undefined
clear array_type = ok (array no_items)
clear object_type = ok (object no_members)
clear string_type = ok (text string none)
clear icon_type = ok (text icon none)
clear url_type = ok (text url none)
clear timestamp_type = ok (timestamp 0)
clear signed_type = ok (signed 0)
clear boolean_type = ok (boolean 0)
clear unsigned_type = ok (unsigned 0)
clear state_type = ok (state 0)
clear real_type = ok (real 0)
clear fraction_type = ok (fraction 0)
clear report_type = err reserved_type

-- `std::string::operator <`, on bytes.
unfoldable pub less : Bytes → Bytes → Bool
less xs [] = false
less [] (y ∷ ys) = true
less (x ∷ xs) (y ∷ ys) = let rest = less xs ys in if x == y then rest else ltb x y

-- `map::find`
unfoldable pub lookup : Bytes → Members → Option Value
unfolding bytes_eq
lookup key no_members = none
lookup key (member k v ms) = let rest = lookup key ms in if bytes_eq key k then some v else rest

-- The member of a key, at its place in the order.
unfoldable pub put_member : Bytes → Value → Members → Members
unfolding bytes_eq less
put_member key new no_members = member key new no_members
put_member key new (member k v ms) =
    let rest = put_member key new ms in
    if bytes_eq key k
    then member k new ms
    else if less key k
    then member key new (member k v ms)
    else member k v rest

-- `map::operator []`: what stands there, or a new value.
abbrev pub found_or_new : Option Value → Value
found_or_new none = undefined
found_or_new (some v) = v

-- `set(src)`, from what the value was, and the loop of `merge(src)`.
unfoldable mutual
  unfolding lookup put_member

  pub set : Value → Value → Result Error Value
  set undefined old = ok undefined
  set (array xs) old = err invalid_type
  set (object ms) old = do merged ← merge_members ms no_members; ok (object merged)
  set (text t s) old = ok (text t s)
  set (timestamp n) old = ok (timestamp n)
  set (signed n) old = ok (signed n)
  set (boolean n) old = ok (boolean n)
  set (unsigned n) old = ok (unsigned n)
  set (state n) old = ok (state n)
  set (real n) old = ok (real n)
  set (fraction n) old = ok (fraction n)
  set (report n) old = err reserved_type

  pub merge_members : Members → Members → Result Error Members
  merge_members no_members to = ok to
  merge_members (member k v ms) to = do
    new ← set v (found_or_new (lookup k to))
    merge_members ms (put_member k new to)

-- `merge(src)`
unfoldable pub merge : Value → Value → Result Error Value
unfolding merge_members
merge undefined undefined = ok (object no_members)
merge undefined to = ok to
merge (object ms) undefined = do merged ← merge_members ms no_members; ok (object merged)
merge (object ms) (object to) = do merged ← merge_members ms to; ok (object merged)
merge src to = err cant_merge

-- `Value(src)`, the copy.
unfoldable mutual
  pub copy : Value → Result Error Value
  copy undefined = ok undefined
  copy (array xs) = do ys ← copy_items xs; ok (array ys)
  copy (object ms) = do ns ← copy_members ms; ok (object ns)
  copy (text t s) = ok (text t s)
  copy (timestamp n) = ok (timestamp n)
  copy (signed n) = ok (signed n)
  copy (boolean n) = ok (boolean n)
  copy (unsigned n) = ok (unsigned n)
  copy (state n) = ok (state n)
  copy (real n) = ok (real n)
  copy (fraction n) = ok (fraction n)
  copy (report n) = err cant_copy_report

  pub copy_items : Items → Result Error Items
  copy_items no_items = ok no_items
  copy_items (item v xs) = do w ← copy v; ys ← copy_items xs; ok (item w ys)

  pub copy_members : Members → Result Error Members
  copy_members no_members = ok no_members
  copy_members (member k v ms) = do w ← copy v; ns ← copy_members ms; ok (member k w ns)
