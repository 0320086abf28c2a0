-- ===== src/Value/Csv.antt =====
-- src/library/tools/value/csv.cc: a value as lines with a delimiter. What is put out before an
-- exception is not modelled.
pub mod Faults
use libudjat.Base.{
  ℕ, Bool, true, false, Option, none, some, List, [], ◌∷◌, ◌++◌, ◌==◌, if◌then◌else◌, Bytes, ◌>>=◌,
  Result, err, ok,
}
use libudjat.Value.{Value, Items, array}
use libudjat.Value.Text.{to_text, is_empty, children, child, Formats, TextError, only_arrays}

-- The name of each column, with the delimiter between them: `sep` is whether one stands before.
abbrev pub header : ℕ → Bool → List (Bytes × Value) → Bytes
header delim sep [] = []
header delim sep ((name, v) ∷ rest) =
    (if sep then delim ∷ [] else []) ++ (name ++ header delim true rest)

-- The characters of a text that are not the delimiter.
abbrev pub kept : ℕ → Bytes → Bytes
kept delim [] = []
kept delim (c ∷ cs) = let rest = kept delim cs in if c == delim then rest else c ∷ rest

-- The loop over the columns: `sep` is never set.
unfoldable pub line : Formats → ℕ → List (Bytes × Value) → Value → Result TextError Bytes
unfolding child to_text
line f delim [] row = ok []
line f delim ((name, v) ∷ names) row = do
  cell ← child name row
  s ← to_text f cell
  rest ← line f delim names row
  ok (kept delim s ++ rest)

unfoldable pub lines :
    Formats → ℕ → List (Bytes × Value) → List (Bytes × Value) → Result TextError Bytes
unfolding line
lines f delim names [] = ok []
lines f delim names ((key, row) ∷ rows) = do
  l ← line f delim names row
  rest ← lines f delim names rows
  ok (l ++ (b'\n' ∷ rest))

-- The header, from the first row, and the lines.
unfoldable pub table : Formats → ℕ → List (Bytes × Value) → Result TextError Bytes
unfolding lines children
table f delim [] = ok []
table f delim ((key, row) ∷ rows) = do
  below ← lines f delim (children row) ((key, row) ∷ rows)
  ok (header delim false (children row) ++ (b'\n' ∷ below))

-- The first array that `for_each` comes to.
abbrev pub first_array : List (Bytes × Value) → Option Items
first_array [] = none
first_array ((key, array xs) ∷ rest) = some xs
first_array ((key, v) ∷ rest) = first_array rest

-- `to_csv`: an array in an object is put out first, and then the object itself.
unfoldable pub to_csv : Formats → ℕ → Value → Result TextError Bytes
unfolding table
to_csv f delim (array xs) = table f delim (children (array xs))
to_csv f delim v = elim (first_array (children v)) [
  | none ↦ err only_arrays
  | some xs ↦ do
    inner ← table f delim (children (array xs))
    own ← table f delim (if is_empty v then [] else children v)
    ok (inner ++ own)
]
