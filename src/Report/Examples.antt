-- ===== src/Report/Examples.antt =====
-- Tests of Report.
use libudjat.Base.{ℕ, ◌≡◌, refl, none, some, [], ◌∷◌, codes, err, ok}
use libudjat.Value.{lookup, Members, string, object, text, unsigned, no_members, member}
use libudjat.Report.{
  of_names, of_row, push_back, push_cell, Report, empty_cell, text_cell, signed_cell, no_column,
  past_end,
}
use libudjat.Report.Write.{to_json, to_html, Style}
use libudjat.Report.Table.{cells_of, push_rows, array_json, push_rows-to_json, push_back-partial}

abbrev style : Style
style = record {
  time_text = λ n. [];
  real_text = λ n. [];
  percent_text = λ n. [];
  yes = codes "Yes";
  no = codes "No";
  type_text = λ t. codes "number";
}

abbrev row_of : ℕ → Members
row_of n =
    member (codes "age") (unsigned n)
      (member (codes "name") (text string (some (codes "Ann"))) no_members)

abbrev two_columns : Report
two_columns = of_names (codes "name" ∷ codes "age" ∷ [])

two_columns-html :
    to_html style (push_back (object (row_of 7)) two_columns).1
    ≡ ok (
        codes
          "<table><thead><tr><th>name</th><th>age</th></tr></thead><tbody><tr><td class=\"number\">Ann</td><td class=\"number\">7</td></tr></tbody></table>")
unfolding to_html push_back
two_columns-html = refl

no_headers :
    to_json style (push_back (object (row_of 7)) (push_cell (signed_cell 3) (of_names []))).1
    ≡ err past_end
unfolding to_json push_back
no_headers = refl

of_row-empty :
    of_row (object (row_of 7))
    ≡ ok (record {
      caption = [];
      headers = codes "age" ∷ codes "name" ∷ [];
      cells = empty_cell ∷ empty_cell ∷ [];
    })
unfolding of_row
of_row-empty = refl

push_rows-to_json_example :
    let (e, r) = push_rows (row_of 7 ∷ row_of 8 ∷ []) two_columns in
    (e ≡ none)
    × (to_json style r ≡ ok (codes "[{\"name\":\"Ann\",\"age\":7},{\"name\":\"Ann\",\"age\":8}]"))
unfolding lookup array_json cells_of
push_rows-to_json_example =
    push_rows-to_json style (codes "name") (codes "age" ∷ []) (row_of 7 ∷ row_of 8 ∷ [])
      ((refl, (refl, tt)), ((refl, (refl, tt)), tt))

push_back-partial_example :
    push_back (object (row_of 7)) (of_names (codes "name" ∷ codes "city" ∷ codes "age" ∷ [])) ≡ (
      some no_column,
      record (of_names (codes "name" ∷ codes "city" ∷ codes "age" ∷ [])) {
        cells = text_cell string (codes "Ann") ∷ empty_cell ∷ [];
      },
    )
unfolding lookup cells_of
push_back-partial_example =
    push_back-partial (codes "name" ∷ []) (codes "age" ∷ []) (codes "city") (row_of 7)
      (of_names (codes "name" ∷ codes "city" ∷ codes "age" ∷ [])) refl (refl, tt) refl
