-- ===== src/FileWatcher/Kept.antt =====
-- Every operation of the file watcher keeps its handlers tidy.
use libudjat.Base.{
  ℕ, ◌≤◌, ◌≡◌, refl, sym, ap, subst, ◌∙◌, inl, inr, Option, none, some, List, [], ◌∷◌, arith, ◌==◌,
  if◌then◌else◌, Bool-cases, Bytes, All,
}
use libudjat.FileWatcher.{
  join, joined_or_added, watch_path, has_bit, insert, swept, forget, remove, watch, same_wd,
  on_event, on_events, handle_event, WatchHandler, WatchKind, Watches, Change, as_file,
  as_directory,
}
use libudjat.FileWatcher.Joining.{
  Joined, join-Joined, join-AreGroups, added-IsLive, added-AreGroups,
}
use libudjat.FileWatcher.Groups.{
  files_of, IsGroup, holders, registered, sweep-registered, swept-IsTidy, All-without,
  shares-without, count-without, AreGroups, IsTidy,
}

forget-grouped :
    (path : ℕ → Bytes) (w : ℕ) (hs : List WatchHandler)
    → All (IsGroup path) (files_of hs)
    → All (IsGroup path) (files_of (forget w hs))
forget-grouped path w [] same = tt
forget-grouped path w (h ∷ hs) ((p, same), rest) =
    ((p, All-without (λ f. path f ≡ p) w h.files same), forget-grouped path w hs rest)

forget-holders :
    (path : ℕ → Bytes) (v w : ℕ) (hs : List WatchHandler)
    → holders path v (files_of (forget w hs)) ≤ holders path v (files_of hs)
unfolding holders
forget-holders path v w [] = omega arith
forget-holders path v w (h ∷ hs) =
    omega (arith, shares-without path v w h.files, forget-holders path v w hs)

forget-registered :
    (v w : ℕ) (hs : List WatchHandler)
    → registered v (files_of (forget w hs)) ≡ (if v == w then 0 else registered v (files_of hs))
unfolding registered
forget-registered v w [] = ground arith
forget-registered v w (h ∷ hs) = ground (arith, count-without v w h.files, forget-registered v w hs)

forget-AreGroups :
    (path : ℕ → Bytes) (w : ℕ) (hs : List WatchHandler)
    → AreGroups path (files_of hs)
    → AreGroups path (files_of (forget w hs))
forget-AreGroups path w hs g = record {
  grouped = forget-grouped path w hs g.grouped;
  single = λ v. omega (arith, forget-holders path v w hs, g.single v);
  once = λ v. ground (arith, forget-registered v w hs, g.once v);
}

on_event-files : (e : Change) (hs : List WatchHandler) → files_of (on_event e hs).0 ≡ files_of hs
unfolding on_event
on_event-files e [] = refl
on_event-files e (h ∷ hs) = elim (Bool-cases (same_wd h.wd e.wd)) [
  | inl s ↦ rw s (elim (Bool-cases e.ignored) [ inl i ↦ rw i refl | inr i ↦ rw i refl ])
  | inr s ↦ rw s (ap (◌∷◌ h.files) (on_event-files e hs))
]

on_events-files :
    (es : List Change) (hs : List WatchHandler) → files_of (on_events es hs).0 ≡ files_of hs
unfolding on_events
on_events-files [] hs = refl
on_events-files (e ∷ es) hs = on_events-files es (on_event e hs).0 ∙ on_event-files e hs

-- An operation of a watcher, with what the system answers, or the events that are read.
pub data Step (path : ℕ → Bytes) : Watches → Watches → Type 0 where
  watches :
      (w : ℕ) (mode answer : Option ℕ) (c : Watches) → Step path c (watch path w mode answer c).1
  unwatches : (w : ℕ) (c : Watches) → Step path c (remove w c)
  changes : (es : List Change) (c : Watches) → Step path c (handle_event es c).0

joined_or_added-IsTidy :
    (path : ℕ → Bytes) (kind : WatchKind) (w : ℕ) (answer : Option ℕ) (c : Watches)
    (r : Option (List WatchHandler))
    → IsTidy path c
    → registered w (files_of c.handlers) ≡ 0
    → Joined path w c.handlers r
    → IsTidy path (joined_or_added path kind w answer c r).1
unfolding Joined
joined_or_added-IsTidy path kind w answer c (some ks) t z j = record {
  live = j.3 t.live;
  groups = join-AreGroups path w c.handlers ks t.groups z j;
}
joined_or_added-IsTidy path kind w none c none t z j = record { live = t.live; groups = t.groups }
joined_or_added-IsTidy path kind w (some d) c none t z j = record {
  live = added-IsLive w d c.handlers t.live;
  groups = added-AreGroups path w d c.handlers t.groups z j;
}

watch_path-IsTidy :
    (path : ℕ → Bytes) (kind : WatchKind) (w : ℕ) (answer : Option ℕ) (c : Watches)
    → IsTidy path c
    → registered w (files_of c.handlers) ≡ 0
    → IsTidy path (watch_path path kind w answer c).1
unfolding watch_path
watch_path-IsTidy path kind w answer c t z =
    joined_or_added-IsTidy path kind w answer c (join path w c.handlers) t z
      (join-Joined path w c.handlers t.groups.grouped)

insert-IsTidy :
    (path : ℕ → Bytes) (w : ℕ) (mode answer : Option ℕ) (c : Watches)
    → IsTidy path c
    → registered w (files_of c.handlers) ≡ 0
    → IsTidy path (insert path w mode answer c).1
unfolding insert
insert-IsTidy path w none answer c t z = t
insert-IsTidy path w (some mode) answer c t z = elim (Bool-cases (has_bit 14 mode)) [
  | inl e ↦ rw e (watch_path-IsTidy path as_directory w answer c t z)
  | inr e ↦ rw e (elim (Bool-cases (has_bit 15 mode)) [
    | inl f ↦ rw f (watch_path-IsTidy path as_file w answer c t z)
    | inr f ↦ rw f (elim (Bool-cases (has_bit 13 mode)) [
      | inl k ↦ rw k (watch_path-IsTidy path as_file w answer c t z)
      | inr k ↦ rw k t
    ])
  ])
]

remove-IsTidy :
    (path : ℕ → Bytes) (w : ℕ) (c : Watches)
    → IsTidy path c
    → IsTidy path (remove w c) × (registered w (files_of (remove w c).handlers) ≡ 0)
unfolding remove swept
remove-IsTidy path w c t = (
  swept-IsTidy path (forget w c.handlers) c (forget-AreGroups path w c.handlers t.groups),
  ground (arith, sweep-registered w (forget w c.handlers), forget-registered w w c.handlers),
)

-- Whatever watchers do, whatever the system answers, and whatever events come, between the
-- operations every handler is watched and has files, its files have one path, no two handlers have
-- the same path, and no watcher stands in them twice.
pub Step-IsTidy : (path : ℕ → Bytes) {c d : Watches} → Step path c d → IsTidy path c → IsTidy path d
unfolding watch handle_event
Step-IsTidy path (watches w mode answer c) t =
    let (tidy, zero_times) = remove-IsTidy path w c t in
    insert-IsTidy path w mode answer (remove w c) tidy zero_times
Step-IsTidy path (unwatches w c) t = (remove-IsTidy path w c t).0
Step-IsTidy path (changes es c) t =
    swept-IsTidy path (on_events es c.handlers).0 c
      (subst (AreGroups path) (sym (on_events-files es c.handlers)) t.groups)
