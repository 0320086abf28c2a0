-- ===== src/Url/Resolve.antt =====
-- `operator +=` resolves a relative path.
use libudjat.Base.{
  ℕ, zero, suc, ◌-◌, ◌≤◌, ◌≡◌, refl, sym, ap, ◌∙◌, inl, inr, Bool, true, false, Option, none, some,
  List, [], ◌∷◌, ◌++◌, append-nil, append_assoc, arith, ◌==◌, if◌then◌else◌, Bool-cases, Bytes,
  codes, length, take, n_eq, ◌>>=◌, Result, err, ok,
}
use libudjat.Url.{
  text_of, part, join_segments, sanitize, sanitized, pop_back, dots, new_path, appended, append,
  Uri, Error, invalid_url,
}
use libudjat.Url.Clean.{squeeze, sanitize-eq-squeeze}

-- The text of steps: up to the parent (`../`) or nowhere (`./`).
abbrev pub steps_text : List Bool → Bytes
steps_text [] = []
steps_text (true ∷ steps) = b'.' ∷ b'.' ∷ b'/' ∷ steps_text steps
steps_text (false ∷ steps) = b'.' ∷ b'/' ∷ steps_text steps

-- The segments that are left: each step up takes the last one, if there is one.
abbrev pub walk : List Bool → List Bytes → List Bytes
walk [] segments = segments
walk (true ∷ steps) segments = walk steps (pop_back segments)
walk (false ∷ steps) segments = walk steps segments

abbrev pub NoDotFirst : Bytes → Type 0
NoDotFirst [] = Unit
NoDotFirst (c ∷ cs) = (c == b'.') ≡ false

dots-steps_text :
    (fuel : ℕ) (steps : List Bool) (segments : List Bytes) (rest : Bytes)
    → NoDotFirst rest
    → length steps ≤ fuel
    → dots fuel segments (steps_text steps ++ rest) ≡ ok (walk steps segments, rest)
unfolding dots n_eq
dots-steps_text zero [] segments rest h le = refl
dots-steps_text zero (b ∷ steps) segments rest h le = absurd (omega arith)
dots-steps_text (suc fuel) [] segments [] h le = refl
dots-steps_text (suc fuel) [] segments (c ∷ rest) h le = rw (h, dots)
dots-steps_text (suc fuel) (true ∷ steps) segments rest h le =
    dots-steps_text fuel steps (pop_back segments) rest h (omega arith)
dots-steps_text (suc fuel) (false ∷ steps) segments rest h le =
    dots-steps_text fuel steps segments rest h (omega arith)

length-steps_text :
    (steps : List Bool) (rest : Bytes) → length steps ≤ length (steps_text steps ++ rest)
length-steps_text [] rest = omega arith
length-steps_text (true ∷ steps) rest = omega (arith, length-steps_text steps rest)
length-steps_text (false ∷ steps) rest = omega (arith, length-steps_text steps rest)

-- The steps up.
abbrev pub ups : List Bool → ℕ
ups [] = 0
ups (true ∷ steps) = suc (ups steps)
ups (false ∷ steps) = ups steps

length-take : (n : ℕ) (ss : List Bytes) → n ≤ length ss → length (take n ss) ≡ n
length-take zero ss h = refl
length-take (suc n) [] h = absurd (omega (arith, h))
length-take (suc n) (s ∷ ss) h = ap suc (length-take n ss (omega (arith, h)))

take-take : (m n : ℕ) (ss : List Bytes) → m ≤ n → take m (take n ss) ≡ take m ss
take-take zero n ss h = refl
take-take (suc m) zero ss h = absurd (omega (arith, h))
take-take (suc m) (suc n) [] h = refl
take-take (suc m) (suc n) (s ∷ ss) h = ap (λ r. s ∷ r) (take-take m n ss (omega (arith, h)))

take_whole : (ss : List Bytes) → take (length ss) ss ≡ ss
take_whole [] = refl
take_whole (s ∷ ss) = ap (λ r. s ∷ r) (take_whole ss)

pop_back-take : (ss : List Bytes) → pop_back ss ≡ take (length ss - 1) ss
pop_back-take [] = refl
pop_back-take (s ∷ []) = refl
pop_back-take (s ∷ t ∷ ss) =
    ap (λ r. s ∷ r) (pop_back-take (t ∷ ss)) ∙ ap (λ n. take n (s ∷ t ∷ ss)) (less_one (length ss))
  where
    less_one : (n : ℕ) → suc (suc n - 1) ≡ suc (suc n) - 1
    less_one n = omega arith

-- Steps up leave the first segments.
walk-take : (steps : List Bool) (ss : List Bytes) → walk steps ss ≡ take (length ss - ups steps) ss
walk-take [] ss = sym (take_whole ss) ∙ ap (λ n. take n ss) (omega arith)
walk-take (false ∷ steps) ss = walk-take steps ss
walk-take (true ∷ steps) ss =
    ap (walk steps) (pop_back-take ss)
    ∙ walk-take steps (take (length ss - 1) ss)
    ∙ ap (λ n. take (n - ups steps) (take (length ss - 1) ss))
        (length-take (length ss - 1) ss (omega arith))
    ∙ take-take (length ss - 1 - ups steps) (length ss - 1) ss (omega arith)
    ∙ ap (λ n. take n ss) (omega arith)

-- A path, with a slash before each segment.
abbrev pub slashed : List Bytes → Bytes
slashed [] = []
slashed (s ∷ ss) = b'/' ∷ (s ++ slashed ss)

-- What stands behind the steps is one segment more, if it is not empty; a slash before it is left
-- out.
abbrev pub last_segment : Bytes → List Bytes
last_segment [] = []
last_segment (c ∷ []) = if c == b'/' then [] else (c ∷ []) ∷ []
last_segment (c ∷ d ∷ ds) = if c == b'/' then (d ∷ ds) ∷ [] else (c ∷ d ∷ ds) ∷ []

join_segments-append : (ss ts : List Bytes) → join_segments ss ++ slashed ts ≡ slashed (ss ++ ts)
join_segments-append [] ts = refl
join_segments-append (s ∷ ss) ts =
    ap (λ r. b'/' ∷ r)
      (append_assoc s (join_segments ss) (slashed ts)
        ∙ ap (λ r. s ++ r) (join_segments-append ss ts))

new_path-slashed :
    (ss : List Bytes) (rest : Bytes) → new_path ss rest ≡ slashed (ss ++ last_segment rest)
new_path-slashed ss [] = sym (append-nil (join_segments ss)) ∙ join_segments-append ss []
new_path-slashed ss (c ∷ []) = elim (Bool-cases (c == b'/')) [
  | inl e ↦ rw e (sym (append-nil (join_segments ss)) ∙ join_segments-append ss [])
  | inr e ↦ rw e (join_segments-append ss ((c ∷ []) ∷ []))
]
new_path-slashed ss (c ∷ d ∷ ds) = elim (Bool-cases (c == b'/')) [
  | inl e ↦ rw e (
      ap (λ r. join_segments ss ++ (b'/' ∷ r)) (sym (append-nil (d ∷ ds)))
      ∙ join_segments-append ss ((d ∷ ds) ∷ []))
  | inr e ↦ rw e (
      ap (λ r. join_segments ss ++ (b'/' ∷ r)) (sym (append-nil (c ∷ d ∷ ds)))
      ∙ join_segments-append ss ((c ∷ d ∷ ds) ∷ []))
]

-- A path without a slash behind a slash, or a backslash behind a backslash.
abbrev pub squeezed : Bytes → Bytes
squeezed path = squeeze b'\\' false (squeeze b'/' false path)

sanitized-squeezed : (path : Bytes) → sanitized path ≡ squeezed path
unfolding sanitized sanitize
sanitized-squeezed path =
    ap (λ o. elim o as (λ o. Bytes) [ none ↦ [] | some p ↦ p ]) (sanitize-eq-squeeze path)

-- The text of a part of a URL, between two others.
abbrev pub optional : Bytes → Option Bytes → Bytes → Bytes
optional before none after = []
optional before (some s) after = before ++ (s ++ after)

-- The URL with the path `path`: its other parts stay.
abbrev pub with_path : Uri → Bytes → Bytes
with_path uri path =
    optional [] uri.scheme (codes "://")
    ++ (optional [] uri.host []
        ++ (optional (codes ":") uri.port [] ++ (path ++ optional (codes "?") uri.query [])))

scheme_part : (o : Option Bytes) → part (λ s. s ++ codes "://") o ≡ optional [] o (codes "://")
scheme_part none = refl
scheme_part (some s) = refl

host_part : (o : Option Bytes) → text_of o ≡ optional [] o []
host_part none = refl
host_part (some s) = sym (append-nil s)

behind_part : (c : ℕ) (o : Option Bytes) → part (λ s. c ∷ s) o ≡ optional (c ∷ []) o []
behind_part c none = refl
behind_part c (some s) = ap (λ r. c ∷ r) (sym (append-nil s))

-- A relative path of steps, and then a text that begins with no dot: the path of the URL becomes its
-- first segments, as many fewer as there are steps up, and the text as one more, unless it is empty,
-- each behind a slash, and then without doubled slashes or backslashes. Scheme, host, port and query
-- stay.
pub append-steps_text :
    (parse : Bytes → Option Uri) (url : Bytes) (uri : Uri) (steps : List Bool) (rest : Bytes)
    → parse url ≡ some uri
    → NoDotFirst rest
    → append parse (steps_text steps ++ rest) url
      ≡ ok (
          with_path uri (
            squeezed
              (slashed (take (length uri.segments - ups steps) uri.segments ++ last_segment rest))))
unfolding append appended
append-steps_text parse url uri steps rest e h =
    ap
      (λ o.
        elim o as (λ o. Result Error Uri) [ none ↦ err invalid_url | some u ↦ ok u ]
        >>= appended (steps_text steps ++ rest))
      e
    ∙ rw
        (
          dots-steps_text (length (steps_text steps ++ rest)) steps uri.segments rest h
              (length-steps_text steps rest),
          scheme_part uri.scheme,
          host_part uri.host,
          behind_part b':' uri.port,
          behind_part b'?' uri.query,
          sanitized-squeezed (new_path (walk steps uri.segments) rest),
          new_path-slashed (walk steps uri.segments) rest,
          walk-take steps uri.segments,
        )
        refl
