-- ===== src/FileWatcher/Groups.antt =====
-- The handlers of the file watcher: one for a path, and each with somebody to tell.
use libudjat.Base.{
  ℕ, ◌+◌, ◌≤◌, ◌≡◌, refl, ◌≢◌, ◌⊎◌, inl, inr, Option, none, some, List, [], ◌∷◌, arith, ◌==◌,
  if◌then◌else◌, Bool-cases, Bytes, All, count, all,
}
use libudjat.FileWatcher.{shares, without, sweep_handler, sweep, swept, WatchHandler, Watches}

abbrev pub files_of : List WatchHandler → List (List ℕ)
files_of [] = []
files_of (h ∷ hs) = h.files ∷ files_of hs

-- The files of a handler have one path.
abbrev pub IsGroup : (ℕ → Bytes) → List ℕ → Type 0
IsGroup path files = (p : Bytes) × All (λ f. path f ≡ p) files

-- How many handlers have the path of a watcher, and how often the watcher stands in them.
unfoldable pub holders : (ℕ → Bytes) → ℕ → List (List ℕ) → ℕ
unfolding shares
holders path v [] = 0
holders path v (g ∷ gs) = (if shares path v g then 1 else 0) + holders path v gs

unfoldable pub registered : ℕ → List (List ℕ) → ℕ
registered v [] = 0
registered v (g ∷ gs) = count v g + registered v gs

pub record AreGroups (path : ℕ → Bytes) (gs : List (List ℕ)) : Type 0 where
  pub grouped : All (IsGroup path) gs
  pub single : (v : ℕ) → holders path v gs ≤ 1
  pub once : (v : ℕ) → registered v gs ≤ 1

-- A handler that is watched, for some file.
abbrev pub IsLive : WatchHandler → Type 0
IsLive h = (h.wd ≢ none) × (h.files ≢ [])

sweep_handler-IsLive :
    (d : Option ℕ) (files : List ℕ) (c : Watches)
    → All IsLive c.handlers
    → All IsLive (sweep_handler d files c).handlers
sweep_handler-IsLive none files c h = h
sweep_handler-IsLive (some d) [] c h = h
sweep_handler-IsLive (some d) (f ∷ fs) c h = (((λ e. cc), (λ e. cc)), h)

pub sweep-IsLive : (hs : List WatchHandler) → All IsLive (sweep hs).handlers
unfolding sweep
sweep-IsLive [] = tt
sweep-IsLive (h ∷ hs) = sweep_handler-IsLive h.wd h.files (sweep hs) (sweep-IsLive hs)

-- What the sweep of a handler does to the files: they stay, or go.
sweep_handler-files :
    (d : Option ℕ) (files : List ℕ) (c : Watches)
    → (files_of (sweep_handler d files c).handlers ≡ files_of c.handlers)
      ⊎ (files_of (sweep_handler d files c).handlers ≡ files ∷ files_of c.handlers)
sweep_handler-files none files c = inl refl
sweep_handler-files (some d) [] c = inl refl
sweep_handler-files (some d) (f ∷ fs) c = inr refl

sweep-grouped :
    (path : ℕ → Bytes) (hs : List WatchHandler)
    → All (IsGroup path) (files_of hs)
    → All (IsGroup path) (files_of (sweep hs).handlers)
unfolding sweep
sweep-grouped path [] all = tt
sweep-grouped path (h ∷ hs) all = elim (sweep_handler-files h.wd h.files (sweep hs)) [
  | inl e ↦ rw e (sweep-grouped path hs all.1)
  | inr e ↦ rw e (all.0, sweep-grouped path hs all.1)
]

sweep-holders :
    (path : ℕ → Bytes) (v : ℕ) (hs : List WatchHandler)
    → holders path v (files_of (sweep hs).handlers) ≤ holders path v (files_of hs)
unfolding sweep holders
sweep-holders path v [] = omega arith
sweep-holders path v (h ∷ hs) = elim (sweep_handler-files h.wd h.files (sweep hs)) [
  | inl e ↦ rw e (ground (arith, sweep-holders path v hs))
  | inr e ↦ rw e (omega (arith, sweep-holders path v hs))
]

pub sweep-registered :
    (v : ℕ) (hs : List WatchHandler)
    → registered v (files_of (sweep hs).handlers) ≤ registered v (files_of hs)
unfolding sweep registered
sweep-registered v [] = omega arith
sweep-registered v (h ∷ hs) = elim (sweep_handler-files h.wd h.files (sweep hs)) [
  | inl e ↦ rw e (omega (arith, sweep-registered v hs))
  | inr e ↦ rw e (omega (arith, sweep-registered v hs))
]

-- A state between operations.
pub record IsTidy (path : ℕ → Bytes) (c : Watches) : Type 0 where
  pub live : All IsLive c.handlers
  pub groups : AreGroups path (files_of c.handlers)

pub swept-IsTidy :
    (path : ℕ → Bytes) (hs : List WatchHandler) (c : Watches)
    → AreGroups path (files_of hs)
    → IsTidy path (swept hs c)
unfolding swept
swept-IsTidy path hs c g = record {
  live = sweep-IsLive hs;
  groups = record {
    grouped = sweep-grouped path hs g.grouped;
    single = λ v. omega (arith, sweep-holders path v hs, g.single v);
    once = λ v. omega (arith, sweep-registered v hs, g.once v);
  };
}

-- A watcher is taken out.
pub All-without : (Q : ℕ → Type 0) (w : ℕ) (files : List ℕ) → All Q files → All Q (without w files)
All-without Q w [] all = tt
All-without Q w (f ∷ fs) all = elim (Bool-cases (f == w)) [
  | inl e ↦ rw e (All-without Q w fs all.1)
  | inr e ↦ rw e (all.0, All-without Q w fs all.1)
]

pub shares-without :
    (path : ℕ → Bytes) (v w : ℕ) (files : List ℕ)
    → (if shares path v (without w files) then 1 else 0) ≤ (if shares path v files then 1 else 0)
unfolding shares
shares-without path v w [] = omega arith
shares-without path v w (f ∷ fs) = ground (arith, shares-without path v w fs)

pub count-without :
    (v w : ℕ) (files : List ℕ) → count v (without w files) ≡ (if v == w then 0 else count v files)
count-without v w [] = ground arith
count-without v w (f ∷ fs) = ground (arith, count-without v w fs)
