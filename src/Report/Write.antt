-- ===== src/Report/Write.antt =====
-- src/library/tools/report.cc: a report as JSON, XML and HTML. What was put out before an exception
-- is not modelled. YAML, shell and CSV have no code.
use libudjat.Base.{
  ℕ, Bool, true, false, List, [], ◌∷◌, ◌++◌, ◌==◌, if◌then◌else◌, Bytes, codes, ◌>>=◌, Result, err,
  ok,
}
use libudjat.Report.{
  Cell, ReportError, Report, empty_cell, odd_cell, text_cell, timestamp_cell, signed_cell,
  state_cell, unsigned_cell, boolean_cell, real_cell, fraction_cell, cant_convert, past_end,
}
use libudjat.Value.{
  ValueType, undefined_type, string_type, timestamp_type, signed_type, unsigned_type, real_type,
  boolean_type, fraction_type, icon_type, url_type, state_type, string, icon, url,
}
use libudjat.Value.Text.{number_text, signed_text}

-- The texts of times and doubles by the stream, of the double by 100, and the translations.
pub record Style : Type 0 where
  pub time_text : ℕ → Bytes
  pub real_text : ℕ → Bytes
  pub percent_text : ℕ → Bytes
  pub yes : Bytes
  pub no : Bytes
  pub type_text : ValueType → Bytes

-- `Cell::serialize`
unfoldable pub serialize : Style → Cell → Result ReportError Bytes
unfolding signed_text
serialize f empty_cell = ok []
serialize f (odd_cell t) = err cant_convert
serialize f (text_cell t s) = ok s
serialize f (timestamp_cell n) = ok (f.time_text n)
serialize f (signed_cell n) = ok (signed_text n)
serialize f (boolean_cell n) = ok (if n == 0 then f.no else f.yes)
serialize f (unsigned_cell n) = ok (number_text n)
serialize f (state_cell n) = ok (number_text n)
serialize f (real_cell n) = ok (f.real_text n)
serialize f (fraction_cell n) = ok (f.percent_text n)

-- The `column` iterator before a cell: whether it is set back to the first header, the name it
-- points to then, and what is behind.
abbrev pub next_column : List Bytes → List Bytes → Result ReportError (Bool × Bytes × List Bytes)
next_column headers (h ∷ hs) = ok (false, h, hs)
next_column [] [] = err past_end
next_column (h ∷ hs) [] = ok (true, h, hs)

unfoldable pub json_cell : Style → Cell → Result ReportError Bytes
unfolding serialize
json_cell f empty_cell = ok (codes "false")
json_cell f (text_cell t s) = do out ← serialize f (text_cell t s); ok (b'"' ∷ (out ++ b'"' ∷ []))
json_cell f (timestamp_cell n) = do
  out ← serialize f (timestamp_cell n)
  ok (b'"' ∷ (out ++ b'"' ∷ []))
json_cell f (boolean_cell n) = ok (if n == 0 then codes "false" else codes "true")
json_cell f c = serialize f c

-- What stands before a name: the end of the last row, or a comma.
abbrev pub json_separator : Bool → Bool → Bytes
json_separator fresh sep = if fresh then codes "},{" else if sep then codes "," else []

unfoldable pub json_loop :
    Style → List Bytes → Bool → List Bytes → List Cell → Result ReportError Bytes
unfolding json_cell
json_loop f headers sep column [] = ok []
json_loop f headers sep column (c ∷ cells) = do
  (fresh, name, behind) ← next_column headers column
  here ← json_cell f c
  rest ← json_loop f headers true behind cells
  ok (json_separator fresh sep ++ (b'"' ∷ (name ++ (codes "\":" ++ (here ++ rest)))))

unfoldable pub to_json : Style → Report → Result ReportError Bytes
unfolding json_loop
to_json f r = elim r.cells [
  | [] ↦ ok (codes "[]")
  | c ∷ cells ↦ do
    inside ← json_loop f r.headers false r.headers (c ∷ cells)
    ok (codes "[{" ++ (inside ++ codes "}]"))
]

-- `to_xml`
abbrev pub xml_caption : Bytes → Bytes
xml_caption [] = []
xml_caption (c ∷ cs) = codes "<caption>" ++ ((c ∷ cs) ++ codes "</caption>")

unfoldable pub xml_loop : Style → List Bytes → List Bytes → List Cell → Result ReportError Bytes
unfolding serialize
xml_loop f headers column [] = ok []
xml_loop f headers column (c ∷ cells) = do
  (fresh, name, behind) ← next_column headers column
  here ← serialize f c
  rest ← xml_loop f headers behind cells
  ok (
      (if fresh then codes "</item><item>" else [])
      ++ (b'<' ∷ (name ++ (b'>' ∷ (here ++ (codes "</" ++ (name ++ (b'>' ∷ rest))))))))

unfoldable pub to_xml : Style → Report → Result ReportError Bytes
unfolding xml_loop
to_xml f r = elim r.cells [
  | [] ↦ ok (xml_caption r.caption)
  | c ∷ cells ↦ do
    inside ← xml_loop f r.headers r.headers (c ∷ cells)
    ok (xml_caption r.caption ++ (codes "<item>" ++ (inside ++ codes "</item>")))
]

-- `to_html`
abbrev pub cell_type : Cell → ValueType
cell_type empty_cell = undefined_type
cell_type (odd_cell t) = t
cell_type (text_cell string s) = string_type
cell_type (text_cell icon s) = icon_type
cell_type (text_cell url s) = url_type
cell_type (timestamp_cell n) = timestamp_type
cell_type (signed_cell n) = signed_type
cell_type (state_cell n) = state_type
cell_type (unsigned_cell n) = unsigned_type
cell_type (boolean_cell n) = boolean_type
cell_type (real_cell n) = real_type
cell_type (fraction_cell n) = fraction_type

abbrev pub cell_class : Style → Cell → Bytes
cell_class f (boolean_cell n) = if n == 0 then codes "false-value" else codes "true-value"
cell_class f c = f.type_text (cell_type c)

unfoldable pub html_loop : Style → List Bytes → List Bytes → List Cell → Result ReportError Bytes
unfolding serialize
html_loop f headers column [] = ok []
html_loop f headers column (c ∷ cells) = do
  (fresh, name, behind) ← next_column headers column
  here ← serialize f c
  rest ← html_loop f headers behind cells
  ok (
      (if fresh then codes "</tr><tr>" else [])
      ++ (codes "<td class=\""
          ++ (cell_class f c ++ (codes "\">" ++ (here ++ (codes "</td>" ++ rest))))))

abbrev pub html_headers : List Bytes → Bytes
html_headers [] = []
html_headers (h ∷ hs) = codes "<th>" ++ (h ++ (codes "</th>" ++ html_headers hs))

abbrev pub html_body : Style → Report → Result ReportError Bytes
unfolding html_loop
html_body f r = elim r.cells [
  | [] ↦ ok (codes "<tbody class=\"no-data\" />")
  | c ∷ cells ↦ do
    inside ← html_loop f r.headers r.headers (c ∷ cells)
    ok (codes "<tbody><tr>" ++ (inside ++ codes "</tr></tbody>"))
]

unfoldable pub to_html : Style → Report → Result ReportError Bytes
unfolding html_body
to_html f r = do
  body ← html_body f r
  ok (
      codes "<table>"
      ++ (xml_caption r.caption
          ++ (codes "<thead><tr>"
              ++ (html_headers r.headers
                  ++ (codes "</tr></thead>" ++ (body ++ codes "</table>"))))))
