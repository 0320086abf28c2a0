-- ===== src/FileText/Examples.antt =====
-- Tests of FileText.
use libudjat.Base.{ℕ, ◌<◌, ◌≡◌, refl, false, some, [], ◌∷◌, ◌++◌, arith, Bytes, codes, IsText, ok}
use libudjat.FileText.{for_each, begin, iterate, load, Device}
use libudjat.FileText.Load.{load-whole}
use libudjat.FileText.Lines.{lines, unlines, for_each-lines}
use libudjat.FileText.Iterate.{iterate-for_each}

abbrev three_lines : Bytes
three_lines = codes "ab\n\ncd\n"

three_lines-lines : lines three_lines ≡ codes "ab" ∷ [] ∷ codes "cd" ∷ [] ∷ []
unfolding lines
three_lines-lines = refl

three_lines-IsText : IsText three_lines
three_lines-IsText = (
  omega arith,
  (omega arith, (omega arith, (omega arith, (omega arith, (omega arith, (omega arith, tt)))))),
)

for_each-lines_example :
    (for_each 8 (three_lines ++ 0 ∷ []) ≡ some (codes "ab" ∷ [] ∷ codes "cd" ∷ [] ∷ []))
    × (unlines (lines three_lines) ≡ three_lines)
unfolding lines
for_each-lines_example = for_each-lines 8 three_lines [] three_lines-IsText (omega arith)

iterate-for_each_example :
    iterate 8 (three_lines ++ 0 ∷ []) 7 (begin (three_lines ++ 0 ∷ []) 7)
    ≡ some (codes "ab" ∷ [] ∷ codes "cd" ∷ [])
unfolding for_each
iterate-for_each_example = iterate-for_each three_lines [] three_lines-IsText

abbrev slow : Device
slow = record { gives = λ i. 2; fails = λ i. false }

load-whole_example : (size : ℕ) × (load slow 8 three_lines ≡ ok (three_lines, size)) × (7 < size)
load-whole_example =
    load-whole slow three_lines (record { some_bytes = λ i. omega arith; no_error = λ i. refl })
