-- ===== src/FileText.antt =====
-- src/library/tools/os/linux/file/text.cc: a text file that is read, and its lines. The memory that
-- starts at `contents` is a list of bytes: the contents, and what stands behind them. What `read`
-- gives each time is a parameter. The call of mmap, and saving, are not modelled.

pub mod Load
pub mod Lines
pub mod Iterate
mod Examples
use mathlib.Core.Option
use libudjat.Base.{
  ℕ, zero, suc, ◌+◌, ◌-◌, Bool, Option, none, some, List, [], ◌∷◌, ◌++◌, ltb, leb, ◌==◌,
  if◌then◌else◌, Bytes, length, take, drop, c_str, Result, err, ok,
}

-- `strchr(from,'\n')`: the place of the first newline of a C text.
unfoldable pub newline_at : Bytes → Option ℕ
newline_at [] = none
newline_at (c ∷ cs) =
    let rest = newline_at cs in
    if c == 0 then none else if c == 10 then some 0 else Option.map (λ n. n + 1) rest

-- `for_each`: the texts that are called with. `none` is no fuel.
abbrev pub cut_line : Bytes → Option ℕ → (Bytes → Option (List Bytes)) → Option (List Bytes)
unfolding c_str
cut_line from none next = some (c_str from ∷ [])
cut_line from (some n) next = Option.map (λ ls. take n from ∷ ls) (next (drop (n + 1) from))

unfoldable pub for_each : ℕ → Bytes → Option (List Bytes)
unfolding newline_at cut_line
for_each zero from = none
for_each (suc fuel) from = cut_line from (newline_at from) (λ next. for_each fuel next)

-- `Iterator`, its text and length apart.
pub record Iterator : Type 0 where
  pub offset : ℕ
  pub value : Bytes

abbrev pub line_at : Bytes → Bytes
unfolding c_str newline_at
line_at from = elim (newline_at from) [ none ↦ c_str from | some n ↦ take n from ]

-- `Iterator::set`
unfoldable pub set : Bytes → ℕ → ℕ → Iterator
unfolding line_at
set text length offset =
    if leb length offset
    then record { offset = offset; value = [] }
    else record { offset = offset; value = line_at (drop offset text) }

-- `operator ++`
abbrev pub next_offset : ℕ → ℕ → Option ℕ → ℕ
next_offset length offset none = length
next_offset length offset (some n) = offset + n + 1

unfoldable pub advance : Bytes → ℕ → Iterator → Iterator
unfolding set newline_at
advance text length it =
    set text length (next_offset length it.offset (newline_at (drop it.offset text)))

-- `begin` and `end`, and a loop from the one to the other. `none` is no fuel.
abbrev pub begin : Bytes → ℕ → Iterator
unfolding set
begin text length = set text length 0

abbrev pub end : Bytes → ℕ → Iterator
unfolding set
end text length = set text length length

unfoldable pub iterate : ℕ → Bytes → ℕ → Iterator → Option (List Bytes)
unfolding advance end
iterate zero text size it = none
iterate (suc fuel) text size it =
    let rest = iterate fuel text size (advance text size it) in
    if it.offset == (end text size).offset then some [] else Option.map (λ ls. it.value ∷ ls) rest

-- What `read` does the `i`th time from the last: it fails, or gives this many bytes at most.
pub record Device : Type 0 where
  pub gives : ℕ → ℕ
  pub fails : ℕ → Bool

pub data LoadError : Type 0 where
  cant_read no_fuel : LoadError

abbrev pub grown : ℕ → ℕ → ℕ
grown size used = if leb (size - 20) used then size + 4096 else size

abbrev pub min : ℕ → ℕ → ℕ
min a b = if ltb b a then b else a

-- The loop of `load`: the size of the buffer, what is in it, and what the file still has. What is
-- done behind the loop, to fit the buffer and to end it with a 0, is left out.
unfoldable pub load_loop : Device → ℕ → ℕ → Bytes → Bytes → Result LoadError (Bytes × ℕ)
load_loop d zero size loaded left = err no_fuel
load_loop d (suc fuel) size loaded left =
    let n = min (size - length loaded) (d.gives fuel) in
    let here = take n left in
    let rest =
      load_loop d fuel (grown size (length loaded + length here)) (loaded ++ here) (drop n left) in
    if d.fails fuel then err cant_read else if length here == 0 then ok (loaded, size) else rest

unfoldable pub load : Device → ℕ → Bytes → Result LoadError (Bytes × ℕ)
unfolding load_loop
load d fuel file = load_loop d fuel 4096 [] file
