-- ===== src/Value/Csv/Faults.antt =====
-- What the lines of a table lack, and the objects that cannot be put out.
use libudjat.Base.{
  ℕ, ◌≡◌, refl, subst, ◌≢◌, List, [], ◌∷◌, ◌++◌, arith, Bytes, count, count-append, ◌>>=◌, Result,
  err, ok,
}
use libudjat.Value.{Value, Items, Members, array, object, item, member}
use libudjat.Value.Text.{to_text, indexed, children, child, Formats, TextError, not_object}
use libudjat.Value.Csv.{kept, line, lines, table, to_csv}

count-kept : (delim : ℕ) (s : Bytes) → count delim (kept delim s) ≡ 0
count-kept delim [] = refl
count-kept delim (c ∷ cs) = ground (arith, count-kept delim cs)

abbrev pub IsClean : ℕ → Result TextError Bytes → Type 0
IsClean delim (err e) = Unit
IsClean delim (ok out) = count delim out ≡ 0

behind-IsClean :
    (delim : ℕ) (s : Bytes) (rest : Result TextError Bytes)
    → IsClean delim rest
    → IsClean delim (rest >>= λ r. ok (kept delim s ++ r))
behind-IsClean delim s (err e) h = tt
behind-IsClean delim s (ok r) h =
    omega (arith, count-append delim (kept delim s) r, count-kept delim s, h)

cell-IsClean :
    (delim : ℕ) (cell : Result TextError Bytes) (rest : Result TextError Bytes)
    → IsClean delim rest
    → IsClean delim (cell >>= λ s. rest >>= λ r. ok (kept delim s ++ r))
cell-IsClean delim (err e) rest h = tt
cell-IsClean delim (ok s) rest h = behind-IsClean delim s rest h

line-IsClean :
    (f : Formats) (delim : ℕ) (names : List (Bytes × Value)) (row : Value)
    → IsClean delim (line f delim names row)
unfolding line
line-IsClean f delim [] row = refl
line-IsClean f delim ((name, v) ∷ names) row =
    by_child (child name row) (line-IsClean f delim names row)
  where
    by_child :
        (c : Result TextError Value)
        → IsClean delim (line f delim names row)
        → IsClean delim (
            c >>= λ cell.
            to_text f cell >>= λ s. line f delim names row >>= λ r. ok (kept delim s ++ r))
    by_child (err e) h = tt
    by_child (ok cell) h = cell-IsClean delim (to_text f cell) (line f delim names row) h

-- A line that is put out holds no delimiter, whatever columns it has: the cells stand together.
pub count-line :
    (f : Formats) (delim : ℕ) (names : List (Bytes × Value)) (row : Value) (out : Bytes)
    → line f delim names row ≡ ok out
    → count delim out ≡ 0
count-line f delim names row out h = subst (IsClean delim) h (line-IsClean f delim names row)

-- An object whose first member is an array that is not empty is never put out: behind the array,
-- the object itself is taken for a table, with the array as its first row.
pub to_csv_refuses_object :
    (f : Formats) (delim : ℕ) (key : Bytes) (v : Value) (xs : Items) (ms : Members) (out : Bytes)
    → to_csv f delim (object (member key (array (item v xs)) ms)) ≢ ok out
unfolding to_csv table lines line child children indexed
to_csv_refuses_object f delim key v xs ms out =
    by_inner (table f delim (children (array (item v xs))))
  where
    by_inner : (r : Result TextError Bytes) → (r >>= λ inner. err not_object) ≢ ok out
    by_inner (err e) h = cc
    by_inner (ok inner) h = cc
