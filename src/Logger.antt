-- ===== src/Logger.antt =====
-- src/library/tools/logger.cc: the levels that are enabled, and what the command line changes of
-- them. A level is its number, from Error, 0, to Debug, 4. The outputs themselves, the system log
-- and the limits for core dumps are not modelled.
pub mod Verbosity
pub mod Writer
mod Examples
use libudjat.Base.{
  ℕ, zero, suc, ◌+◌, ◌-◌, ◌%◌, ◌^◌, Bool, true, false, not, Option, none, some, List, [], ◌∷◌, ltb,
  ◌==◌, if◌then◌else◌, Bytes, codes, is_digit, case_eq,
}
use libudjat.Text.Split.{split}
use libudjat.Text.Strip.{strip}
use libudjat.Text.Units.{scan_digits}
use libudjat.Arguments.{has_argument, get_argument}

-- `typenames`
abbrev pub type_names : List Bytes
type_names = codes "error" ∷ codes "warning" ∷ codes "info" ∷ codes "trace" ∷ codes "debug" ∷ []

-- The function pointer `file`: none, `dummy_writer` or `file_writer`.
pub data FileWriter : Type 0 where
  null dummy_writer file_writer : FileWriter

-- `Logger::Options`. The array `enabled` has an element more than there are levels.
pub record Options : Type 0 where
  pub enabled : ℕ → Bool
  pub console : Bool
  pub file : FileWriter
  pub filename : Option Bytes
  pub coredump : Option Bytes

abbrev pub put : (ℕ → Bool) → ℕ → Bool → ℕ → Bool
put f level value x = if x == level then value else f x

-- `enable` and `enabled`
abbrev pub enable : ℕ → Bool → Options → Options
enable level value o = record o { enabled = put o.enabled (level % 6) value }

abbrev pub is_enabled : ℕ → Options → Bool
is_enabled level o = o.enabled (level % 6)

-- The loop of `verbosity()`, for the rounds left.
unfoldable pub verbosity_loop : ℕ → ℕ → Options → ℕ
verbosity_loop zero level o = 5
verbosity_loop (suc rounds) level o =
    let rest = verbosity_loop rounds (level + 1) o in
    if not (is_enabled level o) then level else rest

unfoldable pub verbosity : Options → ℕ
unfolding verbosity_loop
verbosity o = verbosity_loop 5 0 o

-- `verbosity(lvl)`: the first `lvl` levels are enabled, the others are not.
unfoldable pub set_loop : ℕ → ℕ → ℕ → Options → Options
set_loop zero level lvl o = o
set_loop (suc rounds) level lvl o =
    set_loop rounds (level + 1) (lvl - 1) (enable level (ltb 0 lvl) o)

unfoldable pub set_verbosity : ℕ → Options → Options
unfolding set_loop
set_verbosity lvl o = set_loop 5 0 (lvl % 2 ^ 16) o

-- The levels of a name.
unfoldable pub enable_name : ℕ → List Bytes → Bytes → Options → Options
unfolding case_eq
enable_name ix [] lvl o = o
enable_name ix (name ∷ names) lvl o =
    enable_name (ix + 1) names lvl (if case_eq name lvl then enable ix true o else o)

-- The `for` over the names: a name that is not empty is passed over.
unfoldable pub enable_names : List Bytes → Options → Options
unfolding strip enable_name
enable_names [] o = o
enable_names (lvl ∷ rest) o = elim (strip lvl) [
  | [] ↦ enable_names rest (enable_name 0 type_names [] o)
  | c ∷ cs ↦ enable_names rest o
]

abbrev pub or_nil : Option (List Bytes) → List Bytes
or_nil none = []
or_nil (some xs) = xs

-- `verbosity(level)` of a text. The number is an int: this is right below 2 ^ 31.
unfoldable pub verbosity_text : Bytes → Options → Options
unfolding is_digit set_verbosity enable_names split scan_digits
verbosity_text [] o = enable_names (or_nil (split (codes ",") 0 [])) o
verbosity_text (c ∷ cs) o =
    if is_digit c
    then set_verbosity (scan_digits 0 0 (c ∷ cs)).0 o
    else enable_names (or_nil (split (codes ",") 0 (c ∷ cs))) o

-- `if(get_argument(…)) … else if(has_argument(…)) …`
unfoldable pub on_argument :
    ℕ
    → Bytes
    → Bool
    → (Bytes → Options → Options)
    → (Options → Options)
    → List Bytes × Options
    → List Bytes × Options
unfolding get_argument has_argument
on_argument short long remove with_value alone (argv, o) =
    let (found, value, rest) = get_argument short long remove argv in
    let (found_alone, left) = has_argument short long remove rest in
    if found then (rest, with_value value o) else (left, if found_alone then alone o else o)

abbrev pub set_console : Bool → Options → Options
set_console value o = record o { console = value }

abbrev pub log_to : Bytes → Options → Options
log_to name o = record o { filename = some name; file = file_writer }

-- `setup`. For `-C` the source looks for the option alone first.
unfoldable pub setup : Bool → Bool → List Bytes × Options → List Bytes × Options
unfolding on_argument verbosity_text set_verbosity
setup remove dbg (argv, o) =
    let s0 : List Bytes × Options =
      (argv, if dbg then set_console true (set_verbosity 9 o) else o) in
    let s1 =
      on_argument b'q' (codes "quiet") remove (λ v o. verbosity_text v (set_console false o))
        (set_console false) s0 in
    let s2 =
      on_argument b'v' (codes "verbose") remove (λ v o. verbosity_text v (set_console true o))
        (set_console true) s1 in
    let s3 =
      on_argument b'l' (codes "logfile") remove log_to (λ o. record o { file = file_writer }) s2 in
    let s4 = on_argument b'L' (codes "loglevel") remove verbosity_text (set_verbosity 4) s3 in
    let (found_alone, rest) = has_argument b'C' (codes "coredump") remove s4.0 in
    let (found, value, left) = get_argument b'C' (codes "coredump") remove rest in
    if found_alone
    then (rest, record s4.1 { coredump = some [] })
    else (left, if found then record s4.1 { coredump = some value } else s4.1)
