-- ===== src/Report.antt =====
-- src/library/tools/report.cc: a report, its columns and its cells, which stand row by row in one
-- list. The content of a cell is what a value holds: numbers by their bits. The headers are C
-- texts. What an exception of `push_back` leaves behind is a part of the result.

pub mod Write
pub mod Rows
pub mod Table
mod Examples
use libudjat.Base.{ℕ, Option, none, some, List, [], ◌∷◌, ◌++◌, Bytes, ◌>>=◌, Result, err, ok}
use libudjat.Value.{
  ValueType, TextType, Value, array_type, object_type, report_type, undefined, array, object, text,
  timestamp, signed, boolean, unsigned, state, real, fraction, report,
}
use libudjat.Value.Text.{children, child, TextError}

-- `Report::Cell`; `odd_cell` is what the exception of `set` leaves behind.
pub data Cell : Type 0 where
  empty_cell : Cell
  odd_cell : ValueType → Cell
  text_cell : TextType → Bytes → Cell
  timestamp_cell signed_cell state_cell unsigned_cell : ℕ → Cell
  boolean_cell real_cell fraction_cell : ℕ → Cell

pub data ReportError : Type 0 where
  already_started invalid_cell no_column cant_convert past_end : ReportError

pub record Report : Type 0 where
  pub caption : Bytes
  pub headers : List Bytes
  pub cells : List Cell

abbrev pub empty_report : Report
empty_report = record { caption = []; headers = []; cells = [] }

-- `set_headers`
abbrev pub set_headers : List Bytes → Report → Result ReportError Report
set_headers names r = elim r.headers [
  | [] ↦ ok (record r { headers = names })
  | h ∷ hs ↦ err already_started
]

-- `Report(names)`
abbrev pub of_names : List Bytes → Report
of_names names = record empty_report { headers = names }

-- `Cell::set(value)`
abbrev pub shown : Option Bytes → Bytes
shown none = []
shown (some s) = s

abbrev pub set_cell : Value → Option ReportError × Cell
set_cell undefined = (none, empty_cell)
set_cell (text t s) = (none, text_cell t (shown s))
set_cell (timestamp n) = (none, timestamp_cell n)
set_cell (state n) = (none, state_cell n)
set_cell (signed n) = (none, signed_cell n)
set_cell (unsigned n) = (none, unsigned_cell n)
set_cell (boolean n) = (none, boolean_cell n)
set_cell (real n) = (none, real_cell n)
set_cell (fraction n) = (none, fraction_cell n)
set_cell (array xs) = (some invalid_cell, odd_cell array_type)
set_cell (object ms) = (some invalid_cell, odd_cell object_type)
set_cell (report n) = (some invalid_cell, odd_cell report_type)

-- `Report(first_row)`: the value goes into a copy of the new cell.
abbrev pub set_all : List (Bytes × Value) → Result ReportError (List Bytes × List Cell)
set_all [] = ok ([], [])
set_all ((name, v) ∷ values) = do
  (names, cells) ← set_all values
  elim (set_cell v).0 [ none ↦ ok (name ∷ names, empty_cell ∷ cells) | some e ↦ err e ]

unfoldable pub of_row : Value → Result ReportError Report
unfolding children
of_row first_row = do
  (names, cells) ← set_all (children first_row)
  ok (record { caption = []; headers = names; cells = cells })

-- `push_back(value)`: the cell is there before the value is looked up and set.
abbrev pub found_cell : Result TextError Value → Option ReportError × Cell
found_cell (err e) = (some no_column, empty_cell)
found_cell (ok v) = set_cell v

-- The cell, and those of the columns behind it unless it throws.
abbrev pub then_cells :
    Option ReportError × Cell → Option ReportError × List Cell → Option ReportError × List Cell
then_cells (none, c) rest = (rest.0, c ∷ rest.1)
then_cells (some e, c) rest = (some e, c ∷ [])

unfoldable pub row_cells : List Bytes → Value → Option ReportError × List Cell
unfolding child
row_cells [] row = (none, [])
row_cells (name ∷ names) row = then_cells (found_cell (child name row)) (row_cells names row)

abbrev pub put_cells : Option ReportError × List Cell → Report → Option ReportError × Report
put_cells (e, new) r = (e, record r { cells = r.cells ++ new })

unfoldable pub push_back : Value → Report → Option ReportError × Report
unfolding row_cells
push_back (object ms) r = put_cells (row_cells r.headers (object ms)) r
push_back v r = put_cells ((set_cell v).0, (set_cell v).1 ∷ []) r

-- `push_back<T>(value)`, with the cell that `set` makes of a text, a number, a time or a bool.
abbrev pub push_cell : Cell → Report → Report
push_cell cell r = record r { cells = r.cells ++ cell ∷ [] }

-- `caption(str)`
abbrev pub set_caption : Bytes → Report → Report
set_caption s r = record r { caption = s }
