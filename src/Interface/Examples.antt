-- ===== src/Interface/Examples.antt =====
-- Tests and examples of the call of a handler.
use libudjat.Base.{◌≡◌, refl, true, false, none, [], ◌∷◌, map, arith, Bytes, codes, ok}
use libudjat.Value.{Members, string_type, object, no_members}
use libudjat.Value.Edit.{Readers}
use libudjat.Request.{new_request}
use libudjat.Interface.{take_arguments, opened, introspect, Introspection}
use libudjat.Interface.Bound.{path_argument, Binds, exchange, take_arguments-Binds}

abbrev readers : Readers
readers = record {
  time = λ s. none;
  stoi = λ s. none;
  stoul = λ s. none;
  stod = λ s. none;
  as_bool = λ s. none;
}

abbrev output : Introspection
output = record {
  name = codes "x";
  type = string_type;
  is_input = false;
  is_output = true;
  from_path = false;
}

introspect-output : introspect [] (output ∷ []) ≡ []
unfolding introspect
introspect-output = refl

take_arguments-Binds_example :
    (left : Bytes) × (after : Members) × (take_arguments readers
        (map path_argument (codes "id" ∷ []))
        (opened (record {
          request_path = new_request (codes "/7");
          request = object no_members;
          response = object no_members;
        }))
      ≡ ok (exchange (codes "/7") left after (object no_members)))
    × Binds (codes "id" ∷ []) (codes "7" ∷ []) after
take_arguments-Binds_example =
    take_arguments-Binds readers (codes "id" ∷ []) (codes "7") [] no_members no_members (tt, tt)
      ((omega arith, tt), tt) refl
