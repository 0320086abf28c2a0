-- ===== src/FileWatcher/Examples.antt =====
-- Tests of FileWatcher.
use libudjat.Base.{
  ℕ, ◌≡◌, refl, true, false, none, some, [], ◌∷◌, arith, ◌==◌, if◌then◌else◌, Bytes, codes,
}
use libudjat.FileWatcher.{
  join, watch_path, watch, handle_event, Watches, Change, as_file, as_directory, add_watch,
}
use libudjat.FileWatcher.Groups.{holders, registered, IsTidy}
use libudjat.FileWatcher.Kept.{Step-IsTidy, watches}
use libudjat.FileWatcher.Told.{Untold, watch_path-aliased}

-- Watcher 1 and 2 have one path, 3 another.
abbrev path_name : ℕ → Bytes
path_name w = if w == 3 then codes "/etc/alias" else codes "/etc/motd"

abbrev nobody : Watches
nobody = record { handlers = []; calls = [] }

abbrev one_handler : Watches
one_handler = record {
  handlers = record { wd = some 5; files = 1 ∷ [] } ∷ [];
  calls = add_watch (codes "/etc/motd") as_file ∷ [];
}

abbrev written : Change
written = record {
  wd = some 5;
  name = [];
  ignored = false;
  close_write = true;
  deleted = false;
  move_self = false;
  create = false;
  moved_to = false;
}

first_watch : watch path_name 1 (some 33188) (some 5) nobody ≡ (none, one_handler)
unfolding watch
first_watch = refl

joined_watch :
    (handle_event (written ∷ []) (watch path_name 2 (some 33188) (some 6) one_handler).1).1
    ≡ (written, 1 ∷ 2 ∷ []) ∷ []
unfolding handle_event watch
joined_watch = refl

-- A socket is taken for a directory.
socket_watch :
    (watch path_name 1 (some 49152) (some 5) nobody).1.calls
    ≡ add_watch (codes "/etc/motd") as_directory ∷ []
unfolding watch
socket_watch = refl

nobody-IsTidy : IsTidy path_name nobody
unfolding holders registered
nobody-IsTidy = record {
  live = tt;
  groups = record { grouped = tt; single = λ v. omega arith; once = λ v. omega arith };
}

Step-IsTidy_example : IsTidy path_name (watch path_name 1 (some 33188) (some 5) nobody).1
Step-IsTidy_example = Step-IsTidy path_name (watches 1 (some 33188) (some 5) nobody) nobody-IsTidy

watch_path-aliased_example :
    let (error, after) = watch_path path_name as_file 3 (some 5) one_handler in
    (error ≡ none) × Untold 3 (handle_event (written ∷ written ∷ []) after).1
unfolding registered join
watch_path-aliased_example =
    watch_path-aliased path_name as_file 3 5 one_handler (written ∷ written ∷ []) refl refl refl
      (refl, (refl, tt))
