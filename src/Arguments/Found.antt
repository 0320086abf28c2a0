-- ===== src/Arguments/Found.antt =====
-- An option written in its long form is found with its value.
use libudjat.Base.{
  ℕ, suc, ◌+◌, ◌<◌, ◌≡◌, refl, ap, ◌∙◌, true, false, some, List, [], ◌∷◌, ◌++◌, arith, ◌==◌, Bytes,
  length, drop, All, ncase_eq,
}
use libudjat.Arguments.{
  char_at, extract, match_argument, get_loop, extract_all, get_argument, skip, inside,
}

-- Arguments that are no options.
abbrev pub ArePlain : List Bytes → Type 0
ArePlain = All (λ s. (char_at s 0 == b'-') ≡ false)

match-plain :
    (short : ℕ) (long s : Bytes) (rest : List Bytes)
    → (char_at s 0 == b'-') ≡ false
    → match_argument short long s rest ≡ skip
unfolding match_argument
match-plain short long s rest h = rw h

-- The long form of an option.
abbrev pub long_form : Bytes → Bytes → Bytes
long_form name value = b'-' ∷ b'-' ∷ (name ++ (b'=' ∷ value))

ncase_eq-append : (p t : Bytes) → ncase_eq (length p) p (p ++ t) ≡ true
unfolding ncase_eq
ncase_eq-append [] t = refl
ncase_eq-append (c ∷ p) t = ground (arith, ncase_eq-append p t)

char_at-append : (p t : Bytes) (c : ℕ) → char_at (p ++ (c ∷ t)) (length p) ≡ c
char_at-append [] t c = refl
char_at-append (x ∷ p) t c = char_at-append p t c

drop-append_next : (p t : Bytes) (c : ℕ) → drop (suc (length p)) (p ++ (c ∷ t)) ≡ t
drop-append_next [] t c = refl
drop-append_next (x ∷ p) t c = drop-append_next p t c

char_at-long_form :
    (name value : Bytes) (n : ℕ) → n ≡ length name + 2 → char_at (long_form name value) n ≡ b'='
char_at-long_form name value n e =
    let f : n ≡ suc (suc (length name)) = omega arith in rw f (char_at-append name value b'=')

drop-long_form :
    (name value : Bytes) (n : ℕ) → n ≡ length name + 3 → drop n (long_form name value) ≡ value
drop-long_form name value n e =
    let f : n ≡ suc (suc (suc (length name))) = omega arith in
    rw f (drop-append_next name value b'=')

match-long_form :
    (short c : ℕ) (name value : Bytes) (rest : List Bytes)
    → 0 < c
    → match_argument short (c ∷ name) (long_form (c ∷ name) value) rest ≡ inside value
unfolding match_argument ncase_eq
match-long_form short c name value rest h = ground (
  arith,
  ncase_eq-append name (b'=' ∷ value),
  char_at-long_form (c ∷ name) value (suc (length name) + 2) refl,
  drop-long_form (c ∷ name) value (suc (length name) + 3) refl,
)

get_loop-plain :
    (short : ℕ) (long : Bytes) (ix n : ℕ) (before args : List Bytes)
    → ArePlain before
    → n ≡ ix + length before
    → get_loop short long ix (before ++ args) ≡ get_loop short long n args
unfolding get_loop
get_loop-plain short long ix n [] args h e = let f : n ≡ ix = omega arith in rw f
get_loop-plain short long ix n (s ∷ before) args h e =
    rw (match-plain short long s (before ++ args) h.0, get_loop)
      (get_loop-plain short long (ix + 1) n before args h.1 (omega arith))

get_loop-long_form :
    (short c ix : ℕ) (name value : Bytes) (rest : List Bytes)
    → 0 < c
    → get_loop short (c ∷ name) ix (long_form (c ∷ name) value ∷ rest) ≡ some (ix, value, 1)
unfolding get_loop
get_loop-long_form short c ix name value rest h =
    rw (match-long_form short c name value rest h, get_loop)

pub extract-append :
    (before rest : List Bytes) (s : Bytes)
    → extract (length before) (before ++ (s ∷ rest)) ≡ before ++ rest
unfolding extract
extract-append [] rest s = refl
extract-append (x ∷ before) rest s = ap (◌∷◌ x) (extract-append before rest s)

pub get_argument-some :
    (short : ℕ) (long program : Bytes) (args : List Bytes) (ix : ℕ) (value : Bytes) (n : ℕ)
    → get_loop short long 1 args ≡ some (ix, value, n)
    → get_argument short long true (program ∷ args)
      ≡ (true, value, extract_all n ix (program ∷ args))
unfolding get_argument
get_argument-some short long program args ix value n e = rw (e, get_argument)

-- `--name=value` behind arguments that are no options is found: `get_argument` gives the value as
-- it stands, and takes this argument out and no other.
pub get_argument-long_form :
    (short c : ℕ) (name value program : Bytes) (before after : List Bytes)
    → 0 < c
    → ArePlain before
    → get_argument short
        (c ∷ name)
        true
        (program ∷ (before ++ (long_form (c ∷ name) value ∷ after)))
      ≡ (true, value, program ∷ (before ++ after))
get_argument-long_form short c name value program before after h plain =
    let rest = long_form (c ∷ name) value ∷ after in
    get_argument-some short (c ∷ name) program (before ++ rest) (suc (length before)) value 1 (
      get_loop-plain short (c ∷ name) 1 (suc (length before)) before rest plain (omega arith)
      ∙ get_loop-long_form short c (suc (length before)) name value after h)
    ∙ ap (λ xs. (true, value, xs))
        (extract-append (program ∷ before) after (long_form (c ∷ name) value))
