-- ===== src/Level.antt =====
-- src/library/state/level.cc: the levels of the states by name. A level is its number.
pub mod Laws
use libudjat.Base.{
  ℕ, zero, suc, ◌+◌, Option, none, some, List, [], ◌∷◌, ltb, if◌then◌else◌, Bytes, codes, length,
  case_eq,
}

-- `levelnames`
abbrev pub level_names : List Bytes
level_names =
    codes "undefined"
    ∷ codes "unimportant"
    ∷ codes "ready"
    ∷ codes "warning"
    ∷ codes "error"
    ∷ codes "critical"
    ∷ []

-- The loop of `LevelFactory(name)`; `none` is the exception.
unfoldable pub level_loop : ℕ → Bytes → List Bytes → Option ℕ
unfolding case_eq
level_loop ix name [] = none
level_loop ix name (x ∷ xs) =
    let rest = level_loop (ix + 1) name xs in if case_eq name x then some ix else rest

unfoldable pub level_factory : Bytes → Option ℕ
unfolding level_loop
level_factory name = level_loop 0 name level_names

abbrev pub name_at : List Bytes → ℕ → Option Bytes
name_at [] i = none
name_at (x ∷ xs) zero = some x
name_at (x ∷ xs) (suc i) = name_at xs i

-- `to_string(level)`; `none` is a read behind the table.
unfoldable pub level_text : ℕ → Option Bytes
level_text level =
    if ltb (length level_names) level then some (codes "undefined") else name_at level_names level
