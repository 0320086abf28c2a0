-- ===== src/FileText/Lines.antt =====
-- The lines of a text, cut at its newlines.
use mathlib.Core.Option
use libudjat.Base.{
  ℕ, zero, suc, ◌+◌, ◌<◌, ◌≡◌, refl, sym, ap, subst, ◌∙◌, inl, inr, false, Option, none, some, List,
  [], ◌∷◌, ◌++◌, append_assoc, arith, ◌==◌, if◌then◌else◌, ==→eq, Bool-cases, Bytes, length, take,
  drop, length-append, take-append, c_str, IsText,
}
use libudjat.FileText.{newline_at, cut_line, for_each}

abbrev onto_first : ℕ → List Bytes → List Bytes
onto_first c [] = (c ∷ []) ∷ []
onto_first c (l ∷ ls) = (c ∷ l) ∷ ls

-- What stands between the newlines.
unfoldable pub lines : Bytes → List Bytes
lines [] = [] ∷ []
lines (c ∷ cs) = let rest = lines cs in if c == 10 then [] ∷ rest else onto_first c rest

-- The lines with a newline behind each but the last.
abbrev pub unlines : List Bytes → Bytes
unlines [] = []
unlines (l ∷ []) = l
unlines (l ∷ k ∷ ks) = l ++ 10 ∷ unlines (k ∷ ks)

-- The first line of a text with a 0 behind it: there is no newline, or there is one behind it.
pub data Cut (text behind : Bytes) : Option ℕ → Type 0 where
  whole : c_str (text ++ 0 ∷ behind) ≡ text → lines text ≡ text ∷ [] → Cut text behind none
  line :
      (l r : Bytes)
      → text ≡ l ++ 10 ∷ r
      → IsText r
      → lines text ≡ l ∷ lines r
      → Cut text behind (some (length l))

Cut-cons :
    (c : ℕ) (cs behind : Bytes) (o : Option ℕ)
    → (c == 0) ≡ false
    → (c == 10) ≡ false
    → Cut cs behind o
    → Cut (c ∷ cs) behind (Option.map (λ n. n + 1) o)
unfolding lines c_str
Cut-cons c cs behind none z n (whole e f) = whole (rw (z, e) refl) (rw (n, f) refl)
Cut-cons c cs behind (some _) z n (line l r e t f) =
    subst (λ m. Cut (c ∷ cs) behind (some m)) (omega arith)
      (line (c ∷ l) r (ap (◌∷◌ c) e) t (rw (n, f) refl))

pub newline_at-Cut :
    (text behind : Bytes) → IsText text → Cut text behind (newline_at (text ++ 0 ∷ behind))
unfolding newline_at lines c_str
newline_at-Cut [] behind h = whole refl refl
newline_at-Cut (c ∷ cs) behind h = rw (positive c h.0) (elim (Bool-cases (c == 10)) [
  | inl e ↦ rw e (line [] cs (ap (λ d. d ∷ cs) (==→eq c 10 e)) h.1 (rw e refl))
  | inr e ↦ rw e (
      Cut-cons c cs behind (newline_at (cs ++ 0 ∷ behind)) (positive c h.0) e
        (newline_at-Cut cs behind h.1))
])
  where
    positive : (c : ℕ) → 0 < c → (c == 0) ≡ false
    positive c h = ground arith

-- What is taken and dropped at the newline.
pub take-line : (l r behind : Bytes) → take (length l) ((l ++ 10 ∷ r) ++ 0 ∷ behind) ≡ l
take-line l r behind =
    ap (take (length l)) (append_assoc l (10 ∷ r) (0 ∷ behind))
    ∙ take-append l (10 ∷ (r ++ 0 ∷ behind))

pub drop_same : (m n : ℕ) (xs : Bytes) → m ≡ n → drop m xs ≡ drop n xs
drop_same m n xs e = ap (λ k. drop k xs) e

drop-suc :
    (l r behind : Bytes) → drop (suc (length l)) ((l ++ 10 ∷ r) ++ 0 ∷ behind) ≡ r ++ 0 ∷ behind
drop-suc [] r behind = refl
drop-suc (x ∷ l) r behind = drop-suc l r behind

pub drop-line :
    (l r behind : Bytes) → drop (length l + 1) ((l ++ 10 ∷ r) ++ 0 ∷ behind) ≡ r ++ 0 ∷ behind
drop-line l r behind =
    drop_same (length l + 1) (suc (length l)) ((l ++ 10 ∷ r) ++ 0 ∷ behind) (omega arith)
    ∙ drop-suc l r behind

for_each-Cut :
    (fuel : ℕ) (text behind : Bytes) (o : Option ℕ)
    → Cut text behind o
    → ((r : Bytes)
        → IsText r
        → length r < length text
        → for_each fuel (r ++ 0 ∷ behind) ≡ some (lines r))
    → cut_line (text ++ 0 ∷ behind) o (λ next. for_each fuel next) ≡ some (lines text)
unfolding cut_line
for_each-Cut fuel text behind none (whole e f) next = rw (e, f) refl
for_each-Cut fuel text behind (some _) (line l r e t f) next =
    rw (f, e)
      (ap
          (λ m.
            Option.map (λ ls. m ∷ ls)
              (for_each fuel (drop (length l + 1) ((l ++ 10 ∷ r) ++ 0 ∷ behind))))
          (take-line l r behind)
        ∙ ap (λ m. Option.map (λ ls. l ∷ ls) (for_each fuel m)) (drop-line l r behind)
        ∙ ap (λ o. Option.map (λ ls. l ∷ ls) o)
            (next r t (omega (arith, ap length e, length-append l (10 ∷ r)))))

for_each_all :
    (fuel : ℕ) (text behind : Bytes)
    → IsText text
    → length text < fuel
    → for_each fuel (text ++ 0 ∷ behind) ≡ some (lines text)
unfolding for_each
for_each_all zero text behind h k = absurd (omega (arith, k))
for_each_all (suc fuel) text behind h k =
    for_each-Cut fuel text behind (newline_at (text ++ 0 ∷ behind)) (newline_at-Cut text behind h)
      (λ r t l. for_each_all fuel r behind t (omega (arith, k, l)))

pub lines_some : (text : Bytes) → (l : Bytes) × (ls : List Bytes) × (lines text ≡ l ∷ ls)
unfolding lines
lines_some [] = ([], [], refl)
lines_some (c ∷ cs) =
    let (l, ls, e) = lines_some cs in
    elim (Bool-cases (c == 10)) [
      | inl f ↦ ([], lines cs, rw f refl)
      | inr f ↦ (c ∷ l, ls, rw (f, e) refl)
    ]

unlines-onto_first :
    (c : ℕ) (l : Bytes) (ls : List Bytes) → unlines (onto_first c (l ∷ ls)) ≡ c ∷ unlines (l ∷ ls)
unlines-onto_first c l [] = refl
unlines-onto_first c l (k ∷ ks) = refl

unlines-lines : (text : Bytes) → unlines (lines text) ≡ text
unfolding lines
unlines-lines [] = refl
unlines-lines (c ∷ cs) =
    let (l, ls, e) = lines_some cs in
    elim (Bool-cases (c == 10)) [
      | inl f ↦
          rw (f, e)
            (ap (λ d. d ∷ unlines (l ∷ ls)) (sym (==→eq c 10 f))
              ∙ ap (◌∷◌ c) (ap unlines (sym e) ∙ unlines-lines cs))
      | inr f ↦
          rw (f, e) (unlines-onto_first c l ls ∙ ap (◌∷◌ c) (ap unlines (sym e) ∙ unlines-lines cs))
    ]

-- For a text without a 0, with a 0 behind it, `for_each` calls with the texts between the newlines,
-- in order, and put together again with newlines they are the text.
pub for_each-lines :
    (fuel : ℕ) (text behind : Bytes)
    → IsText text
    → length text < fuel
    → (for_each fuel (text ++ 0 ∷ behind) ≡ some (lines text)) × (unlines (lines text) ≡ text)
for_each-lines fuel text behind h k = (for_each_all fuel text behind h k, unlines-lines text)
