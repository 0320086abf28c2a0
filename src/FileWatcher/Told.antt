-- ===== src/FileWatcher/Told.antt =====
-- Who is told of an event.
use libudjat.Base.{
  ℕ, ◌≤◌, ◌≡◌, refl, ap, ◌⊎◌, inl, inr, Bool, true, false, ◌||◌, Option, none, some, List, [], ◌∷◌,
  ◌++◌, arith, Bool-cases, Bytes, All, count,
}
use libudjat.FileWatcher.{
  join, watch_path, same_wd, on_event, on_events, handle_event, WatchHandler, WatchKind, Watches,
  Change,
}
use libudjat.FileWatcher.Groups.{files_of, registered}

abbrev pub has_wd : Option ℕ → List WatchHandler → Bool
has_wd d [] = false
has_wd d (h ∷ hs) = same_wd h.wd d || has_wd d hs

-- No more are told than are registered.
on_event-registered :
    (e : Change) (v : ℕ) (hs : List WatchHandler)
    → count v (on_event e hs).1 ≤ registered v (files_of hs)
unfolding on_event registered
on_event-registered e v [] = omega arith
on_event-registered e v (h ∷ hs) = elim (Bool-cases (same_wd h.wd e.wd)) [
  | inl s ↦ rw s (omega arith)
  | inr s ↦ rw s (omega (arith, on_event-registered e v hs))
]

abbrev Shadowed : Change → WatchHandler → List WatchHandler → Type 0
Shadowed e h hs = (same_wd h.wd e.wd ≡ false) ⊎ (has_wd e.wd hs ≡ true)

narrow :
    (e : Change) (h k : WatchHandler) (ks : List WatchHandler)
    → same_wd k.wd e.wd ≡ false
    → Shadowed e h (k ∷ ks)
    → Shadowed e h ks
narrow e h k ks s (inl o) = inl o
narrow e h k ks s (inr o) = inr (rw s at o)

-- A handler at the end is told nothing when one before it has its descriptor.
on_event-Shadowed :
    (e : Change) (h : WatchHandler) (hs : List WatchHandler)
    → Shadowed e h hs
    → (on_event e (hs ++ h ∷ [])).1 ≡ (on_event e hs).1
unfolding on_event
on_event-Shadowed e h [] (inl s) = rw s refl
on_event-Shadowed e h [] (inr s) = cc
on_event-Shadowed e h (k ∷ ks) o = elim (Bool-cases (same_wd k.wd e.wd)) [
  | inl s ↦ rw s refl
  | inr s ↦ rw s (on_event-Shadowed e h ks (narrow e h k ks s o))
]

same_wd_sound : (d : ℕ) (o : Option ℕ) → same_wd (some d) o ≡ true → o ≡ some d
same_wd_sound d none h = cc
same_wd_sound d (some b) h = ground arith

alias-Shadowed :
    (d : ℕ) (e : Change) (files : List ℕ) (hs : List WatchHandler)
    → has_wd (some d) hs ≡ true
    → Shadowed e (record { wd = some d; files = files }) hs
alias-Shadowed d e files hs h = elim (Bool-cases (same_wd (some d) e.wd)) [
  | inl s ↦ inr (rw (same_wd_sound d e.wd s) h)
  | inr s ↦ inl s
]

-- The kernel forgot no watch: the handlers stay as they are.
on_event-kept : (e : Change) (hs : List WatchHandler) → e.ignored ≡ false → (on_event e hs).0 ≡ hs
unfolding on_event
on_event-kept e [] g = refl
on_event-kept e (h ∷ hs) g = elim (Bool-cases (same_wd h.wd e.wd)) [
  | inl s ↦ rw (s, g) refl
  | inr s ↦ rw s (ap (λ rest. h ∷ rest) (on_event-kept e hs g))
]

abbrev pub Untold : ℕ → List (Change × List ℕ) → Type 0
Untold w = All (λ t. count w t.1 ≡ 0)

on_events-Untold :
    (d w : ℕ) (files : List ℕ) (hs : List WatchHandler) (es : List Change)
    → All (λ e. e.ignored ≡ false) es
    → registered w (files_of hs) ≡ 0
    → has_wd (some d) hs ≡ true
    → Untold w (on_events es (hs ++ record { wd = some d; files = files } ∷ [])).1
unfolding on_events
on_events-Untold d w files hs [] g z k = tt
on_events-Untold d w files hs (e ∷ es) g z k =
    let last : WatchHandler = record { wd = some d; files = files } in
    (
      rw (on_event-Shadowed e last hs (alias-Shadowed d e files hs k))
          (omega (arith, on_event-registered e w hs, z)),
      rw (on_event-kept e (hs ++ last ∷ []) g.0) (on_events-Untold d w files hs es g.1 z k),
    )

-- A watcher that stands in no handler yet, of a path that is not watched, which is another name of a
-- file that is, as the kernel then answers with the descriptor it has: the call succeeds, and the
-- watcher is told of none of the events that are read next, if no watch ends by one of them.
pub watch_path-aliased :
    (path : ℕ → Bytes) (kind : WatchKind) (w d : ℕ) (c : Watches) (es : List Change)
    → registered w (files_of c.handlers) ≡ 0
    → join path w c.handlers ≡ none
    → has_wd (some d) c.handlers ≡ true
    → All (λ e. e.ignored ≡ false) es
    → let (error, after) = watch_path path kind w (some d) c in
      (error ≡ none) × Untold w (handle_event es after).1
unfolding watch_path handle_event
watch_path-aliased path kind w d c es z n k g =
    rw n (refl, on_events-Untold d w (w ∷ []) c.handlers es g z k)
