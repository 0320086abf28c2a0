-- ===== src/Report/Rows.antt =====
-- A report as JSON is the array of its rows.
use libudjat.Base.{
  ◌≡◌, refl, sym, ap, ◌∙◌, Bool, true, false, List, [], ◌∷◌, ◌++◌, append_assoc, arith, Bytes,
  codes, length, All, all, ◌>>=◌, Result, err, ok,
}
use libudjat.Report.{Cell, ReportError}
use libudjat.Report.Write.{json_cell, json_separator, json_loop, Style}

-- A row as the inside of a JSON object.
unfoldable pub fields : Style → Bool → List Bytes → List Cell → Result ReportError Bytes
unfolding json_cell
fields f sep [] cells = ok []
fields f sep (h ∷ hs) [] = ok []
fields f sep (h ∷ hs) (c ∷ cells) = do
  here ← json_cell f c
  rest ← fields f true hs cells
  ok (json_separator false sep ++ (b'"' ∷ (h ++ (codes "\":" ++ (here ++ rest)))))

-- Rows, each behind a comma.
unfoldable pub objects : Style → List Bytes → List (List Cell) → Result ReportError Bytes
unfolding fields
objects f headers [] = ok []
objects f headers (row ∷ rows) = do
  inside ← fields f false headers row
  rest ← objects f headers rows
  ok (codes ",{" ++ (inside ++ (b'}' ∷ rest)))

-- What is put out after a cell, when that is in two parts.
behind_cell :
    (p name : Bytes) (t u v : Result ReportError Bytes)
    → (t >>= λ here. (u >>= λ a. v >>= λ b. ok (a ++ b)) >>= λ rest.
        ok (p ++ (b'"' ∷ (name ++ (codes "\":" ++ (here ++ rest))))))
      ≡ ((t >>= λ here. u >>= λ a. ok (p ++ (b'"' ∷ (name ++ (codes "\":" ++ (here ++ a))))))
          >>= λ a. v >>= λ b. ok (a ++ b))
behind_cell p name (err e) u v = refl
behind_cell p name (ok t) (err e) v = refl
behind_cell p name (ok t) (ok a) (err e) = refl
behind_cell p name (ok t) (ok a) (ok b) = simp append_assoc

ok_again : (v : Result ReportError Bytes) → (v >>= λ b. ok b) ≡ v
ok_again (err e) = refl
ok_again (ok b) = refl

json_loop-rest :
    (f : Style) (headers hs : List Bytes) (row more : List Cell)
    → length row ≡ length hs
    → json_loop f headers true hs (row ++ more)
      ≡ (fields f true hs row >>= λ a. json_loop f headers true [] more >>= λ b. ok (a ++ b))
unfolding json_loop fields
json_loop-rest f headers [] [] more e = sym (ok_again (json_loop f headers true [] more))
json_loop-rest f headers [] (c ∷ row) more e = absurd (omega (arith, e))
json_loop-rest f headers (h ∷ hs) [] more e = absurd (omega (arith, e))
json_loop-rest f headers (h ∷ hs) (c ∷ row) more e =
    rw (json_loop-rest f headers hs row more (omega (arith, e))) (
      behind_cell (codes ",") h (json_cell f c) (fields f true hs row)
        (json_loop f headers true [] more))

-- What is put out after the first cell of a row that is not the first.
behind_first :
    (p name : Bytes) (t u v : Result ReportError Bytes)
    → (t >>= λ here. (u >>= λ a. v >>= λ b. ok (a ++ b)) >>= λ rest.
        ok (p ++ (b'"' ∷ (name ++ (codes "\":" ++ (here ++ rest))))))
      ≡ ((t >>= λ here. u >>= λ a. ok (b'"' ∷ (name ++ (codes "\":" ++ (here ++ a))))) >>= λ a.
          v >>= λ b. ok (p ++ (a ++ b)))
behind_first p name (err e) u v = refl
behind_first p name (ok t) (err e) v = refl
behind_first p name (ok t) (ok a) (err e) = refl
behind_first p name (ok t) (ok a) (ok b) = simp append_assoc

-- A row of the table has a cell for each header.
abbrev pub IsRow : List Bytes → List Cell → Type 0
IsRow headers row = length row ≡ length headers

json_loop-row :
    (f : Style) (h : Bytes) (hs : List Bytes) (row more : List Cell)
    → IsRow (h ∷ hs) row
    → json_loop f (h ∷ hs) true [] (row ++ more) ≡ (
        fields f false (h ∷ hs) row >>= λ a.
        json_loop f (h ∷ hs) true [] more >>= λ b. ok (codes "},{" ++ (a ++ b)))
unfolding json_loop fields
json_loop-row f h hs [] more e = absurd (omega (arith, e))
json_loop-row f h hs (c ∷ row) more e =
    rw (json_loop-rest f (h ∷ hs) hs row more (omega (arith, e))) (
      behind_first (codes "},{") h (json_cell f c) (fields f true hs row)
        (json_loop f (h ∷ hs) true [] more))

pub json_loop-first :
    (f : Style) (h : Bytes) (hs : List Bytes) (row more : List Cell)
    → IsRow (h ∷ hs) row
    → json_loop f (h ∷ hs) false (h ∷ hs) (row ++ more) ≡ (
        fields f false (h ∷ hs) row >>= λ a. json_loop f (h ∷ hs) true [] more >>= λ b. ok (a ++ b))
unfolding json_loop fields
json_loop-first f h hs [] more e = absurd (omega (arith, e))
json_loop-first f h hs (c ∷ row) more e =
    rw (json_loop-rest f (h ∷ hs) hs row more (omega (arith, e)))
      (behind_cell [] h (json_cell f c) (fields f true hs row) (json_loop f (h ∷ hs) true [] more))

abbrev pub joined : List (List Cell) → List Cell
joined [] = []
joined (row ∷ rows) = row ++ joined rows

abbrev pub closing : Result ReportError Bytes → Result ReportError Bytes
closing v = v >>= λ b. ok (b ++ b'}' ∷ [])

closed_row :
    (u v : Result ReportError Bytes)
    → closing (u >>= λ a. v >>= λ b. ok (codes "},{" ++ (a ++ b)))
      ≡ (u >>= λ a. closing v >>= λ b. ok (codes "},{" ++ (a ++ b)))
closed_row (err e) v = refl
closed_row (ok a) (err e) = refl
closed_row (ok a) (ok b) = simp append_assoc

opened_row :
    (u v : Result ReportError Bytes)
    → (u >>= λ a. (v >>= λ o. ok (b'}' ∷ o)) >>= λ b. ok (codes "},{" ++ (a ++ b)))
      ≡ ((u >>= λ a. v >>= λ o. ok (codes ",{" ++ (a ++ (b'}' ∷ o)))) >>= λ o. ok (b'}' ∷ o))
opened_row (err e) v = refl
opened_row (ok a) (err e) = refl
opened_row (ok a) (ok o) = refl

pub json_loop-objects :
    (f : Style) (h : Bytes) (hs : List Bytes) (rows : List (List Cell))
    → All (IsRow (h ∷ hs)) rows
    → closing (json_loop f (h ∷ hs) true [] (joined rows))
      ≡ (objects f (h ∷ hs) rows >>= λ o. ok (b'}' ∷ o))
unfolding json_loop objects
json_loop-objects f h hs [] all = refl
json_loop-objects f h hs (row ∷ rows) all =
    ap closing (json_loop-row f h hs row (joined rows) all.0)
    ∙ closed_row (fields f false (h ∷ hs) row) (json_loop f (h ∷ hs) true [] (joined rows))
    ∙ ap (λ q. fields f false (h ∷ hs) row >>= λ a. q >>= λ b. ok (codes "},{" ++ (a ++ b)))
        (json_loop-objects f h hs rows all.1)
    ∙ opened_row (fields f false (h ∷ hs) row) (objects f (h ∷ hs) rows)
