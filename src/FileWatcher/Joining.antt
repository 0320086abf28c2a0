-- ===== src/FileWatcher/Joining.antt =====
-- A watcher joins the handler of its path, or gets one of its own.
use libudjat.Base.{
  ℕ, ◌+◌, ◌≡◌, refl, sym, ◌∙◌, ◌≢◌, inl, inr, true, false, ◌||◌, Option, none, some, List, [], ◌∷◌,
  ◌++◌, arith, ◌==◌, if◌then◌else◌, Bool-cases, Bytes, All, count-append, bytes_eq, bytes_eq_sound,
}
use libudjat.FileWatcher.{shares, behind, join, WatchHandler}
use libudjat.FileWatcher.Groups.{files_of, IsGroup, holders, registered, IsLive, AreGroups}

-- What a watcher that finds its path does to the handlers, or else that there is none.
unfoldable pub Joined : (ℕ → Bytes) → ℕ → List WatchHandler → Option (List WatchHandler) → Type 0
unfolding holders registered
Joined path w hs none = holders path w (files_of hs) ≡ 0
Joined path w hs (some ks) =
    All (IsGroup path) (files_of ks)
    × ((v : ℕ) → holders path v (files_of ks) ≡ holders path v (files_of hs))
    × ((v : ℕ)
        → registered v (files_of ks) ≡ registered v (files_of hs) + (if w == v then 1 else 0))
    × (All IsLive hs → All IsLive ks)

shares-path :
    (path : ℕ → Bytes) (w : ℕ) (p : Bytes) (files : List ℕ)
    → All (λ f. path f ≡ p) files
    → shares path w files ≡ true
    → path w ≡ p
unfolding shares
shares-path path w p [] same h = cc
shares-path path w p (f ∷ fs) (e, same) h = elim (Bool-cases (bytes_eq (path f) (path w))) [
  | inl b ↦ sym (bytes_eq_sound (path f) (path w) b) ∙ e
  | inr b ↦ shares-path path w p fs same (rw b at h)
]

shares_same :
    (path : ℕ → Bytes) (v w : ℕ) (files : List ℕ)
    → path v ≡ path w
    → shares path v files ≡ shares path w files
unfolding shares
shares_same path v w [] e = refl
shares_same path v w (f ∷ fs) e = rw (e, shares_same path v w fs e) refl

shares_behind :
    (path : ℕ → Bytes) (v w : ℕ) (files : List ℕ)
    → shares path v (files ++ w ∷ []) ≡ (shares path v files || bytes_eq (path w) (path v))
unfolding shares
shares_behind path v w [] = elim (Bool-cases (bytes_eq (path w) (path v))) [
  | inl e ↦ rw e refl
  | inr e ↦ rw e refl
]
shares_behind path v w (f ∷ fs) = elim (Bool-cases (bytes_eq (path f) (path v))) [
  | inl e ↦ rw e refl
  | inr e ↦ rw e (shares_behind path v w fs)
]

shares-append :
    (path : ℕ → Bytes) (v w : ℕ) (files : List ℕ)
    → shares path w files ≡ true
    → shares path v (files ++ w ∷ []) ≡ shares path v files
shares-append path v w files h =
    shares_behind path v w files ∙ elim (Bool-cases (bytes_eq (path w) (path v))) [
      | inl e ↦
          rw (e, shares_same path v w files (sym (bytes_eq_sound (path w) (path v) e)), h) refl
      | inr e ↦ rw e (ground arith)
    ]

All-append : (Q : ℕ → Type 0) (xs : List ℕ) (w : ℕ) → All Q xs → Q w → All Q (xs ++ w ∷ [])
All-append Q [] w h q = (q, tt)
All-append Q (x ∷ xs) w h q = (h.0, All-append Q xs w h.1 q)

append_some : (xs : List ℕ) (w : ℕ) → xs ++ w ∷ [] ≢ []
append_some [] w e = cc
append_some (x ∷ xs) w e = cc

behind-Joined :
    (path : ℕ → Bytes) (w : ℕ) (h : WatchHandler) (hs : List WatchHandler)
    (r : Option (List WatchHandler))
    → IsGroup path h.files
    → shares path w h.files ≡ false
    → Joined path w hs r
    → Joined path w (h ∷ hs) (behind h r)
unfolding Joined holders registered
behind-Joined path w h hs none g n e = rw n (omega (arith, e))
behind-Joined path w h hs (some ks) g n (a, b, c, d) =
    ((g, a), (λ v. omega (arith, b v)), (λ v. omega (arith, c v)), λ l. (l.0, d l.1))

pub join-Joined :
    (path : ℕ → Bytes) (w : ℕ) (hs : List WatchHandler)
    → All (IsGroup path) (files_of hs)
    → Joined path w hs (join path w hs)
unfolding join holders registered Joined
join-Joined path w [] groups = refl
join-Joined path w (h ∷ hs) ((p, same), groups) = elim (Bool-cases (shares path w h.files)) [
  | inl e ↦ rw e (
    (
      (p, All-append (λ f. path f ≡ p) h.files w same (shares-path path w p h.files same e)),
      groups,
    ),
    (λ v. rw (shares-append path v w h.files e) refl),
    (λ v. omega (arith, count-append v h.files (w ∷ []))),
    λ l. ((l.0.0, append_some h.files w), l.1),
  )
  | inr e ↦
      rw e (behind-Joined path w h hs (join path w hs) (p, same) e (join-Joined path w hs groups))
]

pub join-AreGroups :
    (path : ℕ → Bytes) (w : ℕ) (hs ks : List WatchHandler)
    → AreGroups path (files_of hs)
    → registered w (files_of hs) ≡ 0
    → Joined path w hs (some ks)
    → AreGroups path (files_of ks)
unfolding Joined
join-AreGroups path w hs ks g zero_times (a, b, c, d) = record {
  grouped = a;
  single = λ v. omega (arith, b v, g.single v);
  once = λ v. ground (arith, c v, g.once v, zero_times);
}

-- A handler of its own for a path that has none.
added-groups :
    (path : ℕ → Bytes) (w d : ℕ) (hs : List WatchHandler)
    → All (IsGroup path) (files_of hs)
    → All (IsGroup path) (files_of (hs ++ record { wd = some d; files = w ∷ [] } ∷ []))
added-groups path w d [] h = ((path w, (refl, tt)), tt)
added-groups path w d (k ∷ ks) h = (h.0, added-groups path w d ks h.1)

pub added-IsLive :
    (w d : ℕ) (hs : List WatchHandler)
    → All IsLive hs
    → All IsLive (hs ++ record { wd = some d; files = w ∷ [] } ∷ [])
added-IsLive w d [] h = (((λ e. cc), (λ e. cc)), tt)
added-IsLive w d (k ∷ ks) h = (h.0, added-IsLive w d ks h.1)

added-holders :
    (path : ℕ → Bytes) (v w d : ℕ) (hs : List WatchHandler)
    → holders path v (files_of (hs ++ record { wd = some d; files = w ∷ [] } ∷ []))
      ≡ holders path v (files_of hs) + (if bytes_eq (path w) (path v) then 1 else 0)
unfolding holders shares
added-holders path v w d [] = ground arith
added-holders path v w d (k ∷ ks) = omega (arith, added-holders path v w d ks)

added-registered :
    (v w d : ℕ) (hs : List WatchHandler)
    → registered v (files_of (hs ++ record { wd = some d; files = w ∷ [] } ∷ []))
      ≡ registered v (files_of hs) + (if w == v then 1 else 0)
unfolding registered
added-registered v w d [] = ground arith
added-registered v w d (k ∷ ks) = omega (arith, added-registered v w d ks)

holders_same :
    (path : ℕ → Bytes) (v w : ℕ) (gs : List (List ℕ))
    → path v ≡ path w
    → holders path v gs ≡ holders path w gs
unfolding holders
holders_same path v w [] e = refl
holders_same path v w (g ∷ gs) e = rw (shares_same path v w g e, holders_same path v w gs e) refl

pub added-AreGroups :
    (path : ℕ → Bytes) (w d : ℕ) (hs : List WatchHandler)
    → AreGroups path (files_of hs)
    → registered w (files_of hs) ≡ 0
    → holders path w (files_of hs) ≡ 0
    → AreGroups path (files_of (hs ++ record { wd = some d; files = w ∷ [] } ∷ []))
added-AreGroups path w d hs g zero_times alone = record {
  grouped = added-groups path w d hs g.grouped;
  single = λ v. elim (Bool-cases (bytes_eq (path w) (path v))) [
    | inl e ↦
        rw
          (
            added-holders path v w d hs,
            e,
            holders_same path v w (files_of hs) (sym (bytes_eq_sound (path w) (path v) e)),
          )
          (omega (arith, alone))
    | inr e ↦ rw (added-holders path v w d hs, e) (omega (arith, g.single v))
  ];
  once = λ v. rw (added-registered v w d hs) (ground (arith, g.once v, zero_times));
}
