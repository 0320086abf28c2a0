-- ===== src/Logger/Writer.antt =====
-- logger.cc: the streams of the logger. The characters of each thread and level are put together in a
-- buffer of their own, until the line ends.
pub mod Buffers
pub mod Threads
use libudjat.Base.{
  ℕ, Bool, true, ◌&&◌, ◌||◌, Option, none, some, List, [], ◌∷◌, ◌++◌, leb, ◌==◌, if◌then◌else◌,
  Bytes, codes, take, c_str,
}
use libudjat.Text.Strip.{chomp, chug}

-- `Logger::Buffer`
pub record Buffer : Type 0 where
  pub thread : ℕ
  pub level : ℕ
  pub text : Bytes

-- The buffers of the controller, and what went to `Logger::write` so far.
pub record Streams : Type 0 where
  pub buffers : List Buffer
  pub written : List Buffer

abbrev pub is_of : ℕ → ℕ → Buffer → Bool
is_of thread level b = b.level == level && b.thread == thread

-- `BufferFactory`: the text of the buffer, or that of a new one.
abbrev pub text_of : ℕ → ℕ → List Buffer → Bytes
text_of thread level [] = []
text_of thread level (b ∷ bs) =
    let rest = text_of thread level bs in if is_of thread level b then b.text else rest

abbrev pub set_text : ℕ → ℕ → Bytes → List Buffer → List Buffer
set_text thread level text [] = record { thread = thread; level = level; text = text } ∷ []
set_text thread level text (b ∷ bs) =
    let rest = set_text thread level text bs in
    if is_of thread level b then record b { text = text } ∷ bs else b ∷ rest

-- `delete buffer`, which takes it off the list.
abbrev pub remove : ℕ → ℕ → List Buffer → List Buffer
remove thread level [] = []
remove thread level (b ∷ bs) =
    let rest = remove thread level bs in if is_of thread level b then bs else b ∷ rest

-- `push_back`: whether the line ends; `none` is EOF.
abbrev pub ends_line : Option ℕ → Bool
ends_line none = true
ends_line (some c) = c == b'\n' || c == b'\r'

abbrev pub kept : Option ℕ → Bytes
kept none = []
kept (some c) = if leb 32 c || c == 9 then c ∷ [] else []

-- `write(buffer)`: the line without the blanks at its end, if there is anything left.
unfoldable pub line_of : ℕ → ℕ → Bytes → List Buffer
unfolding chomp c_str
line_of thread level text = elim (c_str (chomp text)) [
  | [] ↦ []
  | c ∷ cs ↦ record { thread = thread; level = level; text = c ∷ cs } ∷ []
]

-- `overflow`
unfoldable pub overflow : ℕ → ℕ → Option ℕ → Streams → Streams
unfolding line_of
overflow thread level c s =
    if ends_line c
    then record {
      buffers = remove thread level s.buffers;
      written = s.written ++ line_of thread level (text_of thread level s.buffers);
    }
    else record s {
      buffers = set_text thread level (text_of thread level s.buffers ++ kept c) s.buffers;
    }

-- `Logger::write(level, message)`: the domain, of fourteen characters, and the text behind the tab.
abbrev pub spaces : Bytes
spaces = codes "              "

unfoldable pub before_tab : Bytes → Option (Bytes × Bytes)
before_tab [] = none
before_tab (c ∷ cs) =
    let rest : Option (Bytes × Bytes) = elim (before_tab cs) [
      | none ↦ none
      | some (a, b) ↦ some (c ∷ a, b)
    ] in
    if c == b'\t' then some ([], cs) else rest

unfoldable pub split_message : Bytes → Bytes × Bytes
unfolding before_tab chug
split_message message = elim (before_tab message) as (λ o. Bytes × Bytes) [
  | none ↦ (spaces, chug message)
  | some (domain, text) ↦ (take 14 (take 15 domain ++ spaces), chug text)
]
