-- ===== src/Interface.antt =====
-- src/library/tools/interface.cc: the call of a handler: what its arguments take from the request, and
-- the actions. An action is a parameter: its return code, and what it makes of request and response.
pub mod Bound
mod Examples
use libudjat.Base.{
  ℕ, Bool, true, false, not, ◌&&◌, ◌||◌, List, [], ◌∷◌, ◌++◌, ◌==◌, if◌then◌else◌, Bytes, ◌>>=◌,
  Result, err, ok,
}
use libudjat.Value.{merge, ValueType, Value, Error, object, no_members}
use libudjat.Value.Edit.{set_from, contains, edit_member, Readers, EditError, cannot_merge}
use libudjat.Request.{rewind, taken, pop, Request}

-- `Interface::Handler::Introspection`
pub record Introspection : Type 0 where
  pub name : Bytes
  pub type : ValueType
  pub is_input : Bool
  pub is_output : Bool
  pub from_path : Bool

-- The request, with its path and its value, and the response.
pub record Exchange : Type 0 where
  pub request_path : Request
  pub request : Value
  pub response : Value

-- `if(value != Value::Object) value.clear(Value::Object)`
abbrev pub as_object : Value → Value
as_object (object ms) = object ms
as_object v = object no_members

-- A member is set if the argument has the direction, and it is missing or comes from the path.
unfoldable pub set_argument :
    Readers → Introspection → Bool → Bytes → Value → Result EditError Value
unfolding contains edit_member set_from
set_argument r arg wanted s v =
    if wanted && (not (contains arg.name v) || arg.from_path)
    then edit_member arg.name (λ old. set_from r s arg.type) v
    else ok v

-- The text for an argument, and what is left of the path.
unfoldable pub argument_text : Introspection → Request → Bytes × Request
unfolding pop
argument_text arg r = if arg.from_path then pop r else ([], r)

-- The round of the loop for an argument.
unfoldable pub take_argument : Readers → Introspection → Exchange → Result EditError Exchange
unfolding set_argument argument_text
take_argument r arg x =
    let (s, left) = argument_text arg x.request_path in
    do
      request ← set_argument r arg arg.is_input s x.request
      response ← set_argument r arg arg.is_output s x.response
      ok (record { request_path = left; request = request; response = response })

unfoldable pub take_arguments : Readers → List Introspection → Exchange → Result EditError Exchange
unfolding take_argument
take_arguments r [] x = ok x
take_arguments r (arg ∷ args) x = do next ← take_argument r arg x; take_arguments r args next

-- The request and the response before the first argument.
abbrev pub opened : Exchange → Exchange
opened x = record {
  request_path = rewind x.request_path;
  request = as_object x.request;
  response = as_object x.response;
}

-- The actions, up to the first one that fails. Each of them finds the path as it was at first.
unfoldable pub run_actions : List (Exchange → ℕ × Exchange) → Exchange → ℕ × Exchange
run_actions [] x = (0, x)
run_actions (action ∷ actions) x =
    let (rc, after) = action (record x { request_path = rewind x.request_path }) in
    let rest = run_actions actions after in if rc == 0 then rest else (rc, after)

abbrev pub merged : Exchange → Result Error Value → Result EditError (ℕ × Exchange)
merged x (err e) = err cannot_merge
merged x (ok v) = ok (0, record x { response = v })

-- `call`
unfoldable pub call :
    Readers
    → List Introspection
    → List (Exchange → ℕ × Exchange)
    → Exchange
    → Result EditError (ℕ × Exchange)
unfolding take_arguments run_actions merge
call r args [] x = do
  taken ← take_arguments r args (opened x)
  merged taken (merge taken.request taken.response)
call r args (action ∷ actions) x = do
  taken ← take_arguments r args (opened x)
  ok (run_actions (action ∷ actions) taken)

-- `introspect`: the arguments that are told, with whether they are inputs; both tests are of the
-- input. With no arguments of its own, a handler lets its actions tell theirs, `told`.
abbrev pub own_arguments : List Introspection → List (Bytes × ValueType × Bool)
own_arguments [] = []
own_arguments (arg ∷ args) =
    let rest = own_arguments args in
    if arg.from_path
    then rest
    else if arg.is_input
    then (arg.name, arg.type, true) ∷ (arg.name, arg.type, false) ∷ rest
    else rest

abbrev pub all_told : List (List (Bytes × ValueType × Bool)) → List (Bytes × ValueType × Bool)
all_told [] = []
all_told (t ∷ told) = t ++ all_told told

unfoldable pub introspect :
    List (List (Bytes × ValueType × Bool)) → List Introspection → List (Bytes × ValueType × Bool)
introspect told [] = all_told told
introspect told (arg ∷ args) = own_arguments (arg ∷ args)
