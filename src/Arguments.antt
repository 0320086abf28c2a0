-- ===== src/Arguments.antt =====
-- src/library/tools/commandlineparser.cc: `has_argument`, `get_argument` and the `extract` that takes
-- an argument out. `argv` is a list of texts, and `argc` its length; a long name that is null is
-- the empty text, and a short name that is absent is 0.
pub mod Found
pub mod Removed
mod Examples
use libudjat.Base.{
  ℕ, zero, suc, ◌+◌, Bool, true, false, not, ◌&&◌, ◌||◌, Option, none, some, List, [], ◌∷◌, ◌==◌,
  if◌then◌else◌, Bytes, length, get_or, drop, bytes_eq, ncase_eq,
}

-- `s[n]`, with the final 0 and no more behind it.
abbrev pub char_at : Bytes → ℕ → ℕ
char_at s n = get_or s n 0

-- `extract`: the arguments behind `dst` move up by one.
unfoldable pub extract : ℕ → List Bytes → List Bytes
extract dst [] = []
extract zero (x ∷ xs) = xs
extract (suc dst) (x ∷ xs) = x ∷ extract dst xs

-- The tests of `has_argument` for one argument.
unfoldable pub is_option : ℕ → Bytes → Bytes → Bool
unfolding bytes_eq
is_option short long s =
    if not (char_at s 0 == b'-')
    then false
    else if not (short == 0) && (char_at s 1 == short && char_at s 2 == 0)
    then true
    else not (length long == 0)
      && (char_at s 1 == b'-' && (bytes_eq long (drop 2 s) && char_at s (length long + 2) == 0))

-- The `for` of `has_argument`, from `ix` on: where the option stands.
unfoldable pub has_loop : ℕ → Bytes → ℕ → List Bytes → Option ℕ
has_loop short long ix [] = none
has_loop short long ix (s ∷ rest) =
    let later = has_loop short long (ix + 1) rest in
    if is_option short long s then some ix else later

-- `has_argument`: the result, and `argv` after it.
unfoldable pub has_argument : ℕ → Bytes → Bool → List Bytes → Bool × List Bytes
has_argument short long remove [] = (false, [])
has_argument short long remove (program ∷ args) = elim (has_loop short long 1 args) [
  | none ↦ (false, program ∷ args)
  | some ix ↦ (true, if remove then extract ix (program ∷ args) else program ∷ args)
]

-- What `get_argument` makes of one argument: no option, an option with its value in it, or an
-- option whose value is the next argument.
pub data Match : Type 0 where
  skip : Match
  inside : Bytes → Match
  behind : Bytes → Match

-- The short forms: `-xvalue`, and `-x value` if the next argument begins with no `-`.
unfoldable pub match_short : ℕ → Bytes → List Bytes → Match
match_short short s rest =
    if short == 0 || not (char_at s 1 == short)
    then skip
    else if not (char_at s 2 == 0)
    then inside (drop 2 s)
    else elim rest [
      | [] ↦ skip
      | value ∷ _ ↦ if char_at value 0 == b'-' then skip else behind value
    ]

-- The body of the `for` of `get_argument`: `--name=value`, `-name=value`, and the short forms.
unfoldable pub match_argument : ℕ → Bytes → Bytes → List Bytes → Match
match_argument short long s rest =
    if not (char_at s 0 == b'-') || char_at s 1 == 0
    then skip
    else if char_at s 1 == b'-'
        && (not (char_at s 2 == 0)
            && (not (length long == 0)
                && (ncase_eq (length long) long (drop 2 s) && char_at s (length long + 2) == b'=')))
    then inside (drop (length long + 3) s)
    else if not (length long == 0)
        && (ncase_eq (length long) long (drop 1 s) && char_at s (length long + 1) == b'=')
    then inside (drop (length long + 2) s)
    else match_short short s rest

-- The `for` of `get_argument`, from `ix` on: where the option stands, its value, and how many
-- arguments they take up.
unfoldable pub get_loop : ℕ → Bytes → ℕ → List Bytes → Option (ℕ × Bytes × ℕ)
get_loop short long ix [] = none
get_loop short long ix (s ∷ rest) =
    let later = get_loop short long (ix + 1) rest in
    elim (match_argument short long s rest) [
      | skip ↦ later
      | inside value ↦ some (ix, value, 1)
      | behind value ↦ some (ix, value, 2)
    ]

-- `extract(ix,argc,argv)`, as often as needed.
abbrev pub extract_all : ℕ → ℕ → List Bytes → List Bytes
extract_all zero ix argv = argv
extract_all (suc n) ix argv = extract_all n ix (extract ix argv)

-- `get_argument`: the result, `value`, and `argv` after it.
unfoldable pub get_argument : ℕ → Bytes → Bool → List Bytes → Bool × Bytes × List Bytes
get_argument short long remove [] = (false, [], [])
get_argument short long remove (program ∷ args) = elim (get_loop short long 1 args) [
  | none ↦ (false, [], program ∷ args)
  | some (ix, value, n) ↦
      (true, value, if remove then extract_all n ix (program ∷ args) else program ∷ args)
]
