-- ===== src/FileWatcher.antt =====
-- src/library/tools/os/linux/file/watcher.cc and tools/file/watcher.cc: which files are watched,
-- and who is told of a change. A watcher is a number, as its address is, and `path` its name. What
-- `stat` and `inotify_add_watch` answer, and the events that are read, are inputs. The lock is left
-- out: an operation is one step, as are all events of a read and the sweep behind them.

pub mod Groups
pub mod Joining
pub mod Kept
pub mod Told
mod Examples
use libudjat.Base.{
  ℕ, ◌/◌, ◌%◌, ◌^◌, Bool, true, false, not, ◌||◌, Option, none, some, List, [], ◌∷◌, ◌++◌, ◌==◌,
  if◌then◌else◌, Bytes, bytes_eq,
}

-- `Handler`; `none` is a `wd` of -1.
pub record WatchHandler : Type 0 where
  pub wd : Option ℕ
  pub files : List ℕ

-- The events that are asked for, by `watch_file` and `watch_directory`.
pub data WatchKind : Type 0 where
  as_file as_directory : WatchKind

-- The calls of the kernel.
pub data KernelCall : Type 0 where
  add_watch : Bytes → WatchKind → KernelCall
  rm_watch : ℕ → KernelCall

pub data WatchError : Type 0 where
  no_stat odd_type no_watch : WatchError

pub record Watches : Type 0 where
  pub handlers : List WatchHandler
  pub calls : List KernelCall

-- The search for a handler of the path, and the watcher behind its files.
abbrev pub shares : (ℕ → Bytes) → ℕ → List ℕ → Bool
unfolding bytes_eq
shares path w [] = false
shares path w (f ∷ files) = bytes_eq (path f) (path w) || shares path w files

abbrev pub behind : WatchHandler → Option (List WatchHandler) → Option (List WatchHandler)
behind h none = none
behind h (some hs) = some (h ∷ hs)

unfoldable pub join : (ℕ → Bytes) → ℕ → List WatchHandler → Option (List WatchHandler)
unfolding shares
join path w [] = none
join path w (h ∷ hs) =
    let rest = join path w hs in
    if shares path w h.files
    then some (record h { files = h.files ++ w ∷ [] } ∷ hs)
    else behind h rest

-- `watch_file` and `watch_directory`, with the answer of `inotify_add_watch`.
abbrev pub add_handler : ℕ → Option ℕ → Watches → Option WatchError × Watches
add_handler w none c = (some no_watch, c)
add_handler w (some d) c =
    (none, record c { handlers = c.handlers ++ record { wd = some d; files = w ∷ [] } ∷ [] })

abbrev pub joined_or_added :
    (ℕ → Bytes)
    → WatchKind
    → ℕ
    → Option ℕ
    → Watches
    → Option (List WatchHandler)
    → Option WatchError × Watches
joined_or_added path kind w answer c (some hs) = (none, record c { handlers = hs })
joined_or_added path kind w answer c none =
    add_handler w answer (record c { calls = c.calls ++ add_watch (path w) kind ∷ [] })

unfoldable pub watch_path :
    (ℕ → Bytes) → WatchKind → ℕ → Option ℕ → Watches → Option WatchError × Watches
unfolding join
watch_path path kind w answer c = joined_or_added path kind w answer c (join path w c.handlers)

-- `insert`: the mode, which `none` stands for when `stat` fails, is tested bit by bit.
abbrev pub has_bit : ℕ → ℕ → Bool
has_bit bit mode = not ((mode / 2 ^ bit) % 2 == 0)

unfoldable pub insert :
    (ℕ → Bytes) → ℕ → Option ℕ → Option ℕ → Watches → Option WatchError × Watches
unfolding watch_path
insert path w none answer c = (some no_stat, c)
insert path w (some mode) answer c =
    if has_bit 14 mode
    then watch_path path as_directory w answer c
    else if has_bit 15 mode
    then watch_path path as_file w answer c
    else if has_bit 15 mode || has_bit 13 mode
    then watch_path path as_file w answer c
    else (some odd_type, c)

-- `files.remove_if`
abbrev pub without : ℕ → List ℕ → List ℕ
without w [] = []
without w (f ∷ fs) = let rest = without w fs in if f == w then rest else f ∷ rest

-- A handler with no files is closed, and a closed one is removed.
abbrev pub sweep_handler : Option ℕ → List ℕ → Watches → Watches
sweep_handler none files c = c
sweep_handler (some d) [] c = record c { calls = rm_watch d ∷ c.calls }
sweep_handler (some d) (f ∷ fs) c = record c {
  handlers = record { wd = some d; files = f ∷ fs } ∷ c.handlers;
}

unfoldable pub sweep : List WatchHandler → Watches
sweep [] = record { handlers = []; calls = [] }
sweep (h ∷ hs) = sweep_handler h.wd h.files (sweep hs)

abbrev pub swept : List WatchHandler → Watches → Watches
unfolding sweep
swept hs c = record { handlers = (sweep hs).handlers; calls = c.calls ++ (sweep hs).calls }

abbrev pub forget : ℕ → List WatchHandler → List WatchHandler
forget w [] = []
forget w (h ∷ hs) = record h { files = without w h.files } ∷ forget w hs

unfoldable pub remove : ℕ → Watches → Watches
unfolding swept
remove w c = swept (forget w c.handlers) c

-- `Watcher::watch`
unfoldable pub watch : (ℕ → Bytes) → ℕ → Option ℕ → Option ℕ → Watches → Option WatchError × Watches
unfolding insert remove
watch path w mode answer c = insert path w mode answer (remove w c)

-- An `inotify_event`, its mask by the bits that are looked at.
pub record Change : Type 0 where
  pub wd : Option ℕ
  pub name : Bytes
  pub ignored : Bool
  pub close_write : Bool
  pub deleted : Bool
  pub move_self : Bool
  pub create : Bool
  pub moved_to : Bool

-- `Watcher::Event`
pub data WatchEvent : Type 0 where
  modified was_created was_deleted moved_from moved_here : WatchEvent

abbrev pub same_wd : Option ℕ → Option ℕ → Bool
same_wd none none = true
same_wd (some d) (some e) = d == e
same_wd _ _ = false

-- `onEvent`: the handlers after it, and the files whose tasks are pushed.
abbrev pub ignore : Change → WatchHandler → WatchHandler
ignore e h = if e.ignored then record h { wd = none } else h

unfoldable pub on_event : Change → List WatchHandler → List WatchHandler × List ℕ
on_event e [] = ([], [])
on_event e (h ∷ hs) =
    let rest = on_event e hs in
    if same_wd h.wd e.wd then (ignore e h ∷ hs, h.files) else (h ∷ rest.0, rest.1)

-- The calls of `updated` by a task.
abbrev pub told_name : (ℕ → Bytes) → Change → ℕ → Bytes
told_name path e f = elim e.name [ [] ↦ path f | c ∷ cs ↦ c ∷ cs ]

abbrev pub one_event : Bool → WatchEvent → Bytes → List (WatchEvent × Bytes)
one_event bit event name = if bit then (event, name) ∷ [] else []

abbrev pub updates : (ℕ → Bytes) → Change → ℕ → List (WatchEvent × Bytes)
updates path e f =
    let name = told_name path e f in
    one_event e.close_write modified name
    ++ (one_event e.deleted was_deleted name
        ++ (one_event e.move_self moved_from name
            ++ (one_event e.create was_created name ++ one_event e.moved_to moved_here name)))

-- `handle_event`, with the events of all reads.
unfoldable pub on_events :
    List Change → List WatchHandler → List WatchHandler × List (Change × List ℕ)
unfolding on_event
on_events [] hs = (hs, [])
on_events (e ∷ es) hs =
    let (after, files) = on_event e hs in
    let (last, tasks) = on_events es after in (last, (e, files) ∷ tasks)

unfoldable pub handle_event : List Change → Watches → Watches × List (Change × List ℕ)
unfolding on_events swept
handle_event es c = let (hs, tasks) = on_events es c.handlers in (swept hs c, tasks)
