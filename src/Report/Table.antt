-- ===== src/Report/Table.antt =====
-- Rows of objects that are pushed to a report, and the report as JSON.
use libudjat.Base.{
  ◌≡◌, refl, sym, ap, ◌∙◌, inl, inr, true, false, Option, none, some, List, [], ◌∷◌, ◌++◌,
  append-nil, append_assoc, arith, Option-cases, Bytes, codes, All, all, ◌>>=◌, Result, err, ok,
}
use libudjat.Value.{lookup, found_or_new, Value, Members, object}
use libudjat.Report.{
  of_names, set_cell, found_cell, row_cells, put_cells, push_back, Cell, ReportError, Report,
  empty_cell, no_column,
}
use libudjat.Report.Write.{json_loop, to_json, Style}
use libudjat.Value.Text.{child, no_child}
use libudjat.Report.Rows.{
  fields, objects, IsRow, json_loop-first, joined, closing, json_loop-objects,
}

-- A column of a row is there, and is neither an array nor an object nor a report.
abbrev pub IsPlain : Option Value → Type 0
IsPlain none = ⊥
IsPlain (some v) = (set_cell v).0 ≡ none

abbrev pub IsComplete : List Bytes → Members → Type 0
unfolding lookup
IsComplete headers ms = All (λ h. IsPlain (lookup h ms)) headers

unfoldable pub cells_of : List Bytes → Members → List Cell
unfolding lookup
cells_of [] ms = []
cells_of (h ∷ hs) ms = (set_cell (found_or_new (lookup h ms))).1 ∷ cells_of hs ms

-- Objects pushed one after the other, up to an exception.
abbrev after_push :
    Option ReportError → Report → Option ReportError × Report → Option ReportError × Report
after_push none r rest = rest
after_push (some e) r rest = (some e, r)

unfoldable pub push_rows : List Members → Report → Option ReportError × Report
unfolding push_back
push_rows [] r = (none, r)
push_rows (ms ∷ rest) r =
    let pushed = push_back (object ms) r in after_push pushed.0 pushed.1 (push_rows rest pushed.1)

-- The rows as a JSON array.
unfoldable pub array_json : Style → List Bytes → List (List Cell) → Result ReportError Bytes
unfolding fields objects
array_json f headers [] = ok (codes "[]")
array_json f headers (row ∷ rows) = do
  inside ← fields f false headers row
  rest ← objects f headers rows
  ok (codes "[{" ++ (inside ++ (b'}' ∷ (rest ++ codes "]"))))

cells_of-IsRow : (headers : List Bytes) (ms : Members) → IsRow headers (cells_of headers ms)
unfolding lookup cells_of
cells_of-IsRow [] ms = refl
cells_of-IsRow (h ∷ hs) ms = omega (arith, cells_of-IsRow hs ms)

found_child :
    (name : Bytes) (ms : Members) (v : Value)
    → lookup name ms ≡ some v
    → child name (object ms) ≡ ok v
unfolding child
found_child name ms v e = rw (e, child) refl

plain_cell :
    (name : Bytes) (ms : Members)
    → IsPlain (lookup name ms)
    → found_cell (child name (object ms)) ≡ (none, (set_cell (found_or_new (lookup name ms))).1)
plain_cell name ms p = elim (Option-cases (lookup name ms)) [
  | inl e ↦ absurd (rw e at p)
  | inr (v, e) ↦ rw (found_child name ms v e, e) (ap (λ o. (o, (set_cell v).1)) (rw e at p))
]

row_cells_complete :
    (headers : List Bytes) (ms : Members)
    → IsComplete headers ms
    → row_cells headers (object ms) ≡ (none, cells_of headers ms)
unfolding row_cells cells_of
row_cells_complete [] ms h = refl
row_cells_complete (name ∷ names) ms h =
    rw (plain_cell name ms h.0, row_cells_complete names ms h.1) refl

push_back_complete :
    (ms : Members) (r : Report)
    → IsComplete r.headers ms
    → push_back (object ms) r ≡ (none, record r { cells = r.cells ++ cells_of r.headers ms })
unfolding push_back
push_back_complete ms r h = ap (λ p. put_cells p r) (row_cells_complete r.headers ms h)

abbrev tables : List Bytes → List Members → List (List Cell)
tables headers [] = []
tables headers (ms ∷ rest) = cells_of headers ms ∷ tables headers rest

tables-IsRow :
    (headers : List Bytes) (rows : List Members) → All (IsRow headers) (tables headers rows)
tables-IsRow headers [] = tt
tables-IsRow headers (ms ∷ rest) = (cells_of-IsRow headers ms, tables-IsRow headers rest)

push_rows_complete :
    (rows : List Members) (r : Report)
    → All (IsComplete r.headers) rows
    → push_rows rows r ≡ (none, record r { cells = r.cells ++ joined (tables r.headers rows) })
unfolding push_rows
push_rows_complete [] r h =
    ap {A = List Cell} (λ l. (none, record r { cells = l })) (sym (append-nil r.cells))
push_rows_complete (ms ∷ rest) r h =
    ap (λ p. after_push p.0 p.1 (push_rows rest p.1)) (push_back_complete ms r h.0)
    ∙ push_rows_complete rest (record r { cells = r.cells ++ cells_of r.headers ms }) h.1
    ∙ ap {A = List Cell} (λ l. (none, record r { cells = l })) (append_assoc r.cells _ _)

closed_array :
    (u v : Result ReportError Bytes)
    → ((u >>= λ a. v >>= λ b. ok (a ++ b)) >>= λ i. ok (codes "[{" ++ (i ++ codes "}]")))
      ≡ (u >>= λ a. closing v >>= λ b. ok (codes "[{" ++ (a ++ (b ++ codes "]"))))
closed_array (err e) v = refl
closed_array (ok a) (err e) = refl
closed_array (ok a) (ok b) = simp append_assoc

opened_array :
    (u w : Result ReportError Bytes)
    → (u >>= λ a. (w >>= λ o. ok (b'}' ∷ o)) >>= λ b. ok (codes "[{" ++ (a ++ (b ++ codes "]"))))
      ≡ (u >>= λ a. w >>= λ o. ok (codes "[{" ++ (a ++ (b'}' ∷ (o ++ codes "]")))))
opened_array (err e) w = refl
opened_array (ok a) (err e) = refl
opened_array (ok a) (ok o) = refl

to_json-array :
    (f : Style) (h : Bytes) (hs : List Bytes) (c : Bytes) (rows : List (List Cell))
    → All (IsRow (h ∷ hs)) rows
    → to_json f (record { caption = c; headers = h ∷ hs; cells = joined rows })
      ≡ array_json f (h ∷ hs) rows
unfolding to_json array_json
to_json-array f h hs c [] all = refl
to_json-array f h hs c ([] ∷ rows) all = absurd (omega (arith, all.0))
to_json-array f h hs c ((x ∷ row) ∷ rows) all =
    ap (λ v. v >>= λ i. ok (codes "[{" ++ (i ++ codes "}]")))
      (json_loop-first f h hs (x ∷ row) (joined rows) all.0)
    ∙ closed_array (fields f false (h ∷ hs) (x ∷ row)) (json_loop f (h ∷ hs) true [] (joined rows))
    ∙ ap
        (λ v. fields f false (h ∷ hs) (x ∷ row) >>= λ a.
          v >>= λ b. ok (codes "[{" ++ (a ++ (b ++ codes "]"))))
        (json_loop-objects f h hs rows all.1)
    ∙ opened_array (fields f false (h ∷ hs) (x ∷ row)) (objects f (h ∷ hs) rows)

pub push_rows-to_json :
    (f : Style) (h : Bytes) (hs : List Bytes) (rows : List Members)
    → All (IsComplete (h ∷ hs)) rows
    → let (e, r) = push_rows rows (of_names (h ∷ hs)) in
      (e ≡ none) × (to_json f r ≡ array_json f (h ∷ hs) (tables (h ∷ hs) rows))
push_rows-to_json f h hs rows all =
    rw (push_rows_complete rows (of_names (h ∷ hs)) all)
      (refl, to_json-array f h hs [] (tables (h ∷ hs) rows) (tables-IsRow (h ∷ hs) rows))

missing_child :
    (name : Bytes) (ms : Members) → lookup name ms ≡ none → child name (object ms) ≡ err no_child
unfolding child
missing_child name ms e = rw (e, child) refl

row_cells-missing :
    (before behind : List Bytes) (name : Bytes) (ms : Members)
    → IsComplete before ms
    → lookup name ms ≡ none
    → row_cells (before ++ name ∷ behind) (object ms)
      ≡ (some no_column, cells_of before ms ++ empty_cell ∷ [])
unfolding row_cells cells_of
row_cells-missing [] behind name ms h n = rw (missing_child name ms n) refl
row_cells-missing (b ∷ before) behind name ms h n =
    rw (plain_cell b ms h.0, row_cells-missing before behind name ms h.1 n) refl

-- An object that lacks a column is refused, but not before the cells of the columns in front of it,
-- and an empty one for this column, have been put into the report.
pub push_back-partial :
    (before behind : List Bytes) (name : Bytes) (ms : Members) (r : Report)
    → r.headers ≡ before ++ name ∷ behind
    → IsComplete before ms
    → lookup name ms ≡ none
    → push_back (object ms) r
      ≡ (some no_column, record r { cells = r.cells ++ (cells_of before ms ++ empty_cell ∷ []) })
unfolding push_back
push_back-partial before behind name ms r e h n =
    ap (λ p. put_cells p r)
      (ap (λ l. row_cells l (object ms)) e ∙ row_cells-missing before behind name ms h n)
