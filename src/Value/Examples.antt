-- ===== src/Value/Examples.antt =====
-- Tests and examples of the values.
use libudjat.Base.{◌-◌, ◌^◌, ◌≡◌, refl, none, some, List, [], ◌∷◌, Bytes, codes, err, ok}
use libudjat.Value.{
  type_of, less, lookup, set, merge, Value, Members, undefined_type, unsigned_type, string,
  undefined, array, object, text, signed, unsigned, no_items, no_members, member, invalid_type,
}
use libudjat.Value.Copy.{refusal, set-outcome}
use libudjat.Value.Merge.{over, merge-lookup}
use libudjat.Value.Order.{IsOrdered, AreOrdered}
use libudjat.Value.Text.{get_text, Formats}
use libudjat.Value.Json.{to_json}
use libudjat.Value.Yaml.{to_yaml}
use libudjat.Value.Edit.Typed.{edit_member-type_of}
use libudjat.Value.Edit.{set_from, append_member, edit_member, Readers, cannot_append}

abbrev word : Bytes → Value
word s = text string (some s)

abbrev person : Members
person = member (codes "age") (unsigned 30) (member (codes "name") (word (codes "Ann")) no_members)

abbrev address : Members
address =
    member (codes "city") (word (codes "Rio"))
      (member (codes "name") (word (codes "Bob")) no_members)

abbrev formats : Formats
formats = record { time_text = λ n. []; real_text = λ n. []; fraction_text = λ n. [] }

append_member_drops :
    append_member (codes "x") undefined_type (object person)
    ≡ (object no_members, some cannot_append)
unfolding append_member
append_member_drops = refl

to_json-person :
    to_json formats (λ n. []) (object person) ≡ ok (codes "{\"age\":30,\"name\":\"Ann\"}")
unfolding to_json
to_json-person = refl

get_text_negative : get_text formats (signed (2 ^ 32 - 5)) ≡ ok (codes "-5")
unfolding get_text
get_text_negative = refl

set-outcome_example :
    set
      (object (member (codes "a") (object person) (member (codes "b") (array no_items) no_members)))
      undefined
    ≡ err invalid_type
unfolding IsOrdered less refusal
set-outcome_example =
    set-outcome
      (object (member (codes "a") (object person) (member (codes "b") (array no_items) no_members)))
      undefined (refl, (refl, tt, (tt, tt, tt)), (tt, tt, tt))

merge-lookup_example :
    (r : Members) × (merge (object person) (object address) ≡ ok (object r))
    × AreOrdered r
    × ((key : Bytes) → lookup key r ≡ over (lookup key person) (lookup key address))
unfolding IsOrdered less refusal
merge-lookup_example =
    merge-lookup person address (refl, tt, (tt, tt, tt)) (refl, tt, (tt, tt, tt)) refl

abbrev columns : List (Bytes × Value)
columns = (codes "age", undefined) ∷ (codes "name", undefined) ∷ []

abbrev no_readers : Readers
no_readers = record {
  time = λ s. none;
  stoi = λ s. none;
  stoul = λ s. some 7;
  stod = λ s. none;
  as_bool = λ s. none;
}

edit_member-type_of_example :
    (ms : Members) × (u : Value) × (object (member (codes "n") (unsigned 7) no_members) ≡ object ms)
    × (lookup (codes "n") ms ≡ some u)
    × (type_of u ≡ unsigned_type)
unfolding edit_member set_from
edit_member-type_of_example =
    edit_member-type_of no_readers (codes "7") unsigned_type (codes "n") undefined
      (object (member (codes "n") (unsigned 7) no_members)) refl

to_yaml-person :
    to_yaml formats (λ n margin. []) 0 (object (member (codes "p") (object person) no_members))
    ≡ ok (codes "p:\n    age: 30\n    name: \"Ann\"\n")
unfolding to_yaml
to_yaml-person = refl

-- A member with no value does not end its line.
to_yaml-undefined :
    to_yaml formats
      (λ n margin. [])
      0
      (object (member (codes "a") undefined (member (codes "b") (unsigned 1) no_members)))
    ≡ ok (codes "a:b: 1\n")
unfolding to_yaml
to_yaml-undefined = refl
