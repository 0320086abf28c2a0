-- ===== src/FileText/Iterate.antt =====
-- An iterator over the lines.
use mathlib.Core.Option
use libudjat.Base.{
  ℕ, zero, suc, ◌+◌, ◌<◌, ◌≡◌, refl, sym, ap, ◌∙◌, inl, inr, false, Option, none, some, List, [],
  ◌∷◌, ◌++◌, arith, leb, ◌==◌, ==_refl, Bool-cases, Bytes, length, drop, length-append, c_str,
  IsText,
}
use libudjat.FileText.{
  newline_at, for_each, line_at, set, next_offset, advance, begin, end, iterate, Iterator,
}
use libudjat.FileText.Lines.{
  lines, newline_at-Cut, take-line, drop_same, drop-line, lines_some, for_each-lines, Cut, whole,
  line,
}

-- Without the last line, when that is empty.
abbrev pub trimmed : List Bytes → List Bytes
trimmed [] = []
trimmed ([] ∷ []) = []
trimmed ((c ∷ cs) ∷ []) = (c ∷ cs) ∷ []
trimmed (l ∷ k ∷ ks) = l ∷ trimmed (k ∷ ks)

set-offset : (text : Bytes) (size offset : ℕ) → (set text size offset).offset ≡ offset
unfolding set
set-offset text size offset = elim (Bool-cases (leb size offset)) [
  | inl e ↦ rw e refl
  | inr e ↦ rw e refl
]

set-value :
    (text : Bytes) (size offset : ℕ)
    → offset < size
    → (set text size offset).value ≡ line_at (drop offset text)
unfolding set
set-value text size offset h = rw (not_leb) refl
  where
    not_leb : leb size offset ≡ false
    not_leb = ground arith

drop_nil : (n : ℕ) → drop {A = ℕ} n [] ≡ []
drop_nil zero = refl
drop_nil (suc n) = refl

drop-drop : (m n : ℕ) (xs : Bytes) → drop n (drop m xs) ≡ drop (m + n) xs
drop-drop zero n xs = drop_same n (0 + n) xs (omega arith)
drop-drop (suc m) n [] = drop_nil n ∙ sym (drop_nil (suc m + n))
drop-drop (suc m) n (x ∷ xs) =
    drop-drop m n xs ∙ drop_same (suc (m + n)) (suc m + n) (x ∷ xs) (omega arith)

-- An iterator at an offset, as `set` makes it.
record IsAt (text : Bytes) (size offset : ℕ) (it : Iterator) : Type 0 where
  place : it.offset ≡ offset
  shown : offset < size → it.value ≡ line_at (drop offset text)

set-IsAt : (text : Bytes) (size offset : ℕ) → IsAt text size offset (set text size offset)
set-IsAt text size offset = record {
  place = set-offset text size offset;
  shown = set-value text size offset;
}

-- Where the iterator goes next.
abbrev follow : Bytes → ℕ → ℕ → Iterator
follow text size offset = set text size (next_offset size offset (newline_at (drop offset text)))

iterate_end :
    (fuel : ℕ) (text : Bytes) (size : ℕ) (it : Iterator)
    → 0 < fuel
    → it.offset ≡ size
    → iterate fuel text size it ≡ some []
unfolding iterate end
iterate_end zero text size it h e = absurd (omega (arith, h))
iterate_end (suc fuel) text size it h e = rw (set-offset text size size, e, ==_refl size) refl

iterate_next :
    (fuel : ℕ) (text : Bytes) (size : ℕ) (it : Iterator)
    → it.offset < size
    → iterate (suc fuel) text size it
      ≡ Option.map (λ ls. it.value ∷ ls) (iterate fuel text size (follow text size it.offset))
unfolding iterate end advance
iterate_next fuel text size it h = rw (set-offset text size size, below) refl
  where
    below : (it.offset == size) ≡ false
    below = ground arith

trimmed_one : (l : Bytes) → 0 < length l → trimmed (l ∷ []) ≡ l ∷ []
trimmed_one [] h = absurd (omega (arith, h))
trimmed_one (c ∷ cs) h = refl

trimmed_more :
    (l : Bytes) (ls : List Bytes) (m : Bytes) (ms : List Bytes)
    → ls ≡ m ∷ ms
    → trimmed (l ∷ ls) ≡ l ∷ trimmed ls
trimmed_more l ls m ms e = rw e refl

value_whole :
    (from behind : Bytes)
    → newline_at (from ++ 0 ∷ behind) ≡ none
    → c_str (from ++ 0 ∷ behind) ≡ from
    → line_at (from ++ 0 ∷ behind) ≡ from
unfolding line_at
value_whole from behind n e = rw (n, line_at) e

value_line :
    (l rest behind : Bytes)
    → newline_at ((l ++ 10 ∷ rest) ++ 0 ∷ behind) ≡ some (length l)
    → line_at ((l ++ 10 ∷ rest) ++ 0 ∷ behind) ≡ l
unfolding line_at
value_line l rest behind n = rw (n, line_at) (take-line l rest behind)

-- From the start of a line on: `from` is what is left of the contents, and `next` what is known of
-- later lines.
from-Cut :
    (fuel : ℕ) (text : Bytes) (size offset : ℕ) (value from behind : Bytes) (o : Option ℕ)
    → 0 < length from
    → drop offset text ≡ from ++ 0 ∷ behind
    → offset + length from ≡ size
    → 0 < fuel
    → ((rest : Bytes) (b : ℕ)
        → IsText rest
        → length rest < length from
        → drop b text ≡ rest ++ 0 ∷ behind
        → b + length rest ≡ size
        → iterate fuel text size (set text size b) ≡ some (trimmed (lines rest)))
    → value ≡ line_at (from ++ 0 ∷ behind)
    → newline_at (from ++ 0 ∷ behind) ≡ o
    → Cut from behind o
    → Option.map
        (λ ls. value ∷ ls)
        (iterate fuel text size (set text size (next_offset size offset o)))
      ≡ some (trimmed (lines from))
from-Cut fuel text size offset value from behind none h at e k next v n (whole a b) =
    rw
      (
        iterate_end fuel text size (set text size size) k (set-offset text size size),
        b,
        trimmed_one from h,
      )
      (ap (λ l. some (l ∷ [])) (v ∙ value_whole from behind n a))
from-Cut fuel text size offset value from behind (some _) h at e k next v n (line l rest a t b) =
    let (m, ms, f) = lines_some rest in
    rw
      (
        next rest (offset + length l + 1) t (omega (arith, longer)) there
            (omega (arith, longer, e)),
        b,
        trimmed_more l (lines rest) m ms f,
      )
      (ap (λ w. some (w ∷ trimmed (lines rest)))
        (v
          ∙ ap (λ x. line_at (x ++ 0 ∷ behind)) a
          ∙ value_line l rest behind (ap (λ x. newline_at (x ++ 0 ∷ behind)) (sym a) ∙ n)))
  where
    longer : length from ≡ length l + (1 + length rest)
    longer = omega (arith, ap length a, length-append l (10 ∷ rest))

    there : drop (offset + length l + 1) text ≡ rest ++ 0 ∷ behind
    there =
        drop_same (offset + length l + 1) (offset + (length l + 1)) text (omega arith)
        ∙ sym (drop-drop offset (length l + 1) text)
        ∙ ap (λ x. drop (length l + 1) x) (at ∙ ap (λ x. x ++ 0 ∷ behind) a)
        ∙ drop-line l rest behind

iterate-from :
    (fuel : ℕ) (text : Bytes) (size offset : ℕ) (from behind : Bytes)
    → IsText from
    → drop offset text ≡ from ++ 0 ∷ behind
    → offset + length from ≡ size
    → length from < fuel
    → iterate fuel text size (set text size offset) ≡ some (trimmed (lines from))
unfolding lines
iterate-from zero text size offset from behind h at e k = absurd (omega (arith, k))
iterate-from (suc fuel) text size offset [] behind h at e k =
    iterate_end (suc fuel) text size (set text size offset) (omega arith)
      (set-offset text size offset ∙ omega (arith, e))
iterate-from (suc fuel) text size offset (c ∷ cs) behind h at e k =
    iterate_next fuel text size it (omega (arith, set-offset text size offset, e))
    ∙ ap (λ o. Option.map (λ ls. it.value ∷ ls) (iterate fuel text size (follow text size o)))
        (set-offset text size offset)
    ∙ ap
        (λ m.
          Option.map (λ ls. it.value ∷ ls)
            (iterate fuel text size (set text size (next_offset size offset (newline_at m)))))
        at
    ∙ from-Cut fuel text size offset it.value (c ∷ cs) behind (newline_at ((c ∷ cs) ++ 0 ∷ behind))
        (omega arith) at e (omega (arith, k))
        (λ rest b t l d f. iterate-from fuel text size b rest behind t d f (omega (arith, k, l)))
        (set-value text size offset (omega (arith, e)) ∙ ap line_at at) refl
        (newline_at-Cut (c ∷ cs) behind h)
  where
    it : Iterator
    it = set text size offset

-- For a text without a 0, with a 0 behind it, an iterator goes from `begin` to `end` and shows the
-- lines that `for_each` calls with, but for the last one when it is empty.
pub iterate-for_each :
    (text behind : Bytes)
    → IsText text
    → let memory = text ++ 0 ∷ behind in
      iterate (length text + 1) memory (length text) (begin memory (length text))
      ≡ Option.map trimmed (for_each (length text + 1) memory)
unfolding begin
iterate-for_each text behind h =
    iterate-from (length text + 1) (text ++ 0 ∷ behind) (length text) 0 text behind h refl
      (omega arith) (omega arith)
    ∙ ap (λ o. Option.map trimmed o)
        (sym (for_each-lines (length text + 1) text behind h (omega arith)).0)
