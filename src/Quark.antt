-- ===== src/Quark.antt =====
-- src/library/tools/quark.cc: `Quark::Controller::find`, which gives equal texts the same pointer. A
-- pointer is a number, and the memory tells the text at each. The order in a set does not matter:
-- no two texts of it are equal.
pub mod Same
mod Examples
use libudjat.Base.{ℕ, Bool, Option, none, some, List, [], ◌∷◌, ◌==◌, if◌then◌else◌, Bytes, bytes_eq}

pub record Quarks : Type 0 where
  pub memory : ℕ → Bytes
  pub stored : List ℕ
  pub allocated : List ℕ

-- `find` of an `unordered_set` with the class `Equal`.
unfoldable pub search : (ℕ → Bytes) → Bytes → List ℕ → Option ℕ
unfolding bytes_eq
search memory text [] = none
search memory text (p ∷ ps) =
    let rest = search memory text ps in if bytes_eq (memory p) text then some p else rest

-- `new char[sz+1]` and `strncpy`: `address` is what `new` gave.
abbrev pub write : ℕ → Bytes → (ℕ → Bytes) → ℕ → Bytes
write address text memory p = if p == address then text else memory p

-- A text in none of the sets: a copy of it, or the pointer itself, is put into one.
unfoldable pub insert : ℕ → Bool → ℕ → Quarks → ℕ × Quarks
insert address copy value s =
    if copy
    then (
      address,
      record s {
        memory = write address (s.memory value) s.memory;
        allocated = address ∷ s.allocated;
      },
    )
    else (value, record s { stored = value ∷ s.stored })

-- A text that is not empty.
unfoldable pub intern : ℕ → Bool → ℕ → Quarks → ℕ × Quarks
unfolding search insert
intern address copy value s = elim (search s.memory (s.memory value) s.stored) [
  | some p ↦ (p, s)
  | none ↦ elim (search s.memory (s.memory value) s.allocated) [
    | some p ↦ (p, s)
    | none ↦ insert address copy value s
  ]
]

-- `find`: a null pointer or an empty text gives a null pointer.
unfoldable pub find : ℕ → Bool → Option ℕ → Quarks → Option ℕ × Quarks
unfolding intern
find address copy none s = (none, s)
find address copy (some value) s = elim (s.memory value) [
  | [] ↦ (none, s)
  | c ∷ cs ↦ (some (intern address copy value s).0, (intern address copy value s).1)
]
