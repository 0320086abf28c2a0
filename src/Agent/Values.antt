-- ===== src/Agent/Values.antt =====
-- include/udjat/agent.h and agent/state.h: the agents of numbers, texts and truth values, each with
-- its states. A number is unsigned here; a state of `Info` is its number, as in Agent.
pub mod Laws
use libudjat.Base.{
  ℕ, Bool, true, false, not, ◌&&◌, List, [], ◌∷◌, leb, ◌==◌, if◌then◌else◌, Bytes, bytes_eq, c_str,
  case_eq,
}

-- `State<T>`
pub record RangeState : Type 0 where
  pub from : ℕ
  pub to : ℕ
  pub state : ℕ

-- `State<std::string>` and `State<bool>`
pub record TextState : Type 0 where
  pub text : Bytes
  pub state : ℕ

pub record BoolState : Type 0 where
  pub state_value : Bool
  pub state : ℕ

-- `compare`
abbrev pub compare_range : RangeState → ℕ → Bool
compare_range s value = leb s.from value && leb value s.to

unfoldable pub compare_text : TextState → Bytes → Bool
unfolding case_eq
compare_text s value = case_eq s.text value

abbrev pub compare_bool : BoolState → Bool → Bool
compare_bool s value = elim s.state_value [ true ↦ value | false ↦ not value ]

-- `computeState`: the first state that compares, or the one of `Abstract::Agent`.
abbrev pub compute_number : ℕ → ℕ → List RangeState → ℕ
compute_number value by_default [] = by_default
compute_number value by_default (s ∷ ss) =
    let rest = compute_number value by_default ss in if compare_range s value then s.state else rest

unfoldable pub compute_text : Bytes → ℕ → List TextState → ℕ
unfolding compare_text
compute_text value by_default [] = by_default
compute_text value by_default (s ∷ ss) =
    let rest = compute_text value by_default ss in if compare_text s value then s.state else rest

abbrev pub compute_bool : Bool → ℕ → List BoolState → ℕ
compute_bool value by_default [] = by_default
compute_bool value by_default (s ∷ ss) =
    let rest = compute_bool value by_default ss in if compare_bool s value then s.state else rest

-- `set(value)`: what is passed to `updated`, and the value.
abbrev pub set_number : ℕ → ℕ → Bool × ℕ
set_number value old = if value == old then (false, old) else (true, value)

unfoldable pub set_string : Bytes → Bytes → Bool × Bytes
unfolding bytes_eq
set_string value old = if bytes_eq value old then (false, old) else (true, value)

-- `assign(value)` of a text: `strcmp` is true if the texts differ.
unfoldable pub assign : Bytes → Bytes → Bool × Bytes
unfolding bytes_eq c_str
assign value old = if not (bytes_eq value (c_str old)) then (false, old) else (true, value)
