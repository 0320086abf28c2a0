-- ===== src/Lines.antt =====
-- src/library/tools/os/linux/subprocess/handler.cc: the pipe of a subprocess is read into a buffer,
-- and `on_input` is called for each whole line. The buffer is the text up to its final 0, so
-- `length` is the length of that text; it has 256 characters, so that 255 are left for text.
pub mod Stream
mod Examples
use libudjat.Base.{
  ℕ, zero, suc, ◌+◌, ◌-◌, Bool, true, false, Option, none, some, List, [], ◌∷◌, ◌++◌, ◌==◌,
  if◌then◌else◌, Bytes, length, take, c_str,
}

-- What is called, in order: `on_input` with a line, or `on_error`.
pub data Call : Type 0 where
  input : Bytes → Call
  read_error unexpected_eof io_error pipe_closed : Call

pub record Handler : Type 0 where
  pub is_open : Bool
  pub buffer : Bytes
  pub calls : List Call

-- `strchr(from,'\n')`: the text before the newline and that behind it.
unfoldable pub cut_line : Bytes → Option (Bytes × Bytes)
cut_line [] = none
cut_line (c ∷ cs) =
    let later : Option (Bytes × Bytes) = elim (cut_line cs) [
      | none ↦ none
      | some (a, b) ↦ some (c ∷ a, b)
    ] in
    if c == b'\n' then some ([], cs) else later

-- `if(to > from && *(to-1) == '\r') *(to-1) = 0`
unfoldable pub drop_return : Bytes → Bytes
drop_return [] = []
drop_return (c ∷ []) = if c == b'\r' then [] else c ∷ []
drop_return (c ∷ d ∷ cs) = c ∷ drop_return (d ∷ cs)

-- The `while(to)` of `parse`: the lines given to `on_input`, and the text that is left.
unfoldable pub parse_loop : ℕ → Bytes → List Call × Bytes
parse_loop zero from = ([], from)
parse_loop (suc fuel) from = elim (cut_line from) [
  | none ↦ ([], from)
  | some (line, rest) ↦
      let later = parse_loop fuel rest in (input (drop_return line) ∷ later.0, later.1)
]

-- `parse`: what is left moves to the front of the buffer.
unfoldable pub parse : Handler → Handler
unfolding parse_loop
parse h =
    let done = parse_loop (length h.buffer) h.buffer in
    record h { buffer = done.1; calls = h.calls ++ done.0 }

-- What `read` meets: an error, the end of the file, or some bytes in the pipe.
pub data Input : Type 0 where
  failed ended : Input
  bytes : ℕ → Bytes → Input

abbrev pub called : Handler → Call → Handler
called h c = record h { calls = h.calls ++ c ∷ [] }

abbrev pub close : Handler → Handler
close h = record h { is_open = false }

-- `sizeof(buffer)-(length+1)`, which `read` is asked for.
abbrev pub asked : Handler → ℕ
asked h = 256 - (length h.buffer + 1)

-- The `if(event & oninput)`. Asked for no bytes, `read` gives 0, as at the end of the file; else it
-- takes no more than it is asked for, and leaves the rest in the pipe for a later event. The text
-- ends at the first 0.
unfoldable pub on_readable : Input → Handler → Handler
unfolding parse c_str
on_readable failed h = close (called h read_error)
on_readable ended h = called h unexpected_eof
on_readable (bytes c cs) h =
    if asked h == 0
    then called h unexpected_eof
    else parse (record h { buffer = c_str (h.buffer ++ take (asked h) (c ∷ cs)) })

-- `handle_event`, with what `read` gives if the event has `oninput`.
unfoldable pub handle_event : Option Input → Bool → Bool → Handler → Handler
unfolding on_readable
handle_event readable onerror onhangup h =
    let a : Handler = elim readable [ none ↦ h | some i ↦ on_readable i h ] in
    let b = if onerror then close (called a io_error) else a in
    if onhangup then close (called b pipe_closed) else b

abbrev pub new_handler : Handler
new_handler = record { is_open = true; buffer = []; calls = [] }
