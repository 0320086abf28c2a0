-- ===== src/Request/Pops.antt =====
-- The names of a path, one after the other.
use libudjat.Base.{
  ℕ, zero, suc, ◌≡◌, refl, ap, subst, ◌∙◌, ◌≢◌, none, some, List, [], ◌∷◌, ◌++◌, append-nil, ==_ne,
  Bytes, length, All,
}
use libudjat.Request.{new_request, cut_slash, skip_slash, taken, popped, pop, Request}

-- A name of a path: it is not empty and has no slash.
abbrev pub IsName : Bytes → Type 0
IsName [] = ⊥
IsName (c ∷ cs) = All (λ c. c ≢ b'/') (c ∷ cs)

-- The path of some names, without the slash at its front.
abbrev pub joined : List Bytes → Bytes
joined [] = []
joined (name ∷ names) = elim names [ [] ↦ name | n ∷ ns ↦ name ++ (b'/' ∷ joined names) ]

unfoldable pub pops : ℕ → Request → List Bytes × Request
unfolding pop
pops zero r = ([], r)
pops (suc n) r = let (name, after) = pop r in let (names, end) = pops n after in (name ∷ names, end)

cut_slash-none : (s : Bytes) → All (λ c. c ≢ b'/') s → cut_slash s ≡ none
unfolding cut_slash
cut_slash-none [] h = refl
cut_slash-none (c ∷ cs) h = rw (==_ne c b'/' h.0, cut_slash-none cs h.1) refl

cut_slash-append :
    (s rest : Bytes) → All (λ c. c ≢ b'/') s → cut_slash (s ++ (b'/' ∷ rest)) ≡ some (s, rest)
unfolding cut_slash
cut_slash-append [] rest h = refl
cut_slash-append (c ∷ cs) rest h = rw (==_ne c b'/' h.0, cut_slash-append cs rest h.1) refl

-- The next name, where another follows and where none does, with what `argptr` was.
popped_next :
    (full ptr name rest : Bytes)
    → IsName name
    → popped (record { reqpath = full; argptr = ptr }) (name ++ (b'/' ∷ rest))
      ≡ (name, record { reqpath = full; argptr = rest })
unfolding popped
popped_next full ptr [] rest h = absurd h
popped_next full ptr (c ∷ cs) rest h =
    ap (taken (record { reqpath = full; argptr = ptr }) ((c ∷ cs) ++ (b'/' ∷ rest)))
      (cut_slash-append (c ∷ cs) rest h)

popped_last :
    (full ptr name : Bytes)
    → IsName name
    → popped (record { reqpath = full; argptr = ptr }) name
      ≡ (name, record { reqpath = full; argptr = [] })
unfolding popped
popped_last full ptr [] h = absurd h
popped_last full ptr (c ∷ cs) h =
    ap (taken (record { reqpath = full; argptr = ptr }) (c ∷ cs)) (cut_slash-none (c ∷ cs) h)

skip_slash_name : (name rest : Bytes) → IsName name → skip_slash (name ++ rest) ≡ name ++ rest
skip_slash_name [] rest h = absurd h
skip_slash_name (c ∷ cs) rest h = rw (==_ne c b'/' h.0) refl

skip_slash-joined :
    (n : Bytes) (ns : List Bytes)
    → All IsName (n ∷ ns)
    → skip_slash (joined (n ∷ ns)) ≡ joined (n ∷ ns)
skip_slash-joined n [] h = subst (λ s. skip_slash s ≡ s) (append-nil n) (skip_slash_name n [] h.0)
skip_slash-joined n (m ∷ ns) h = skip_slash_name n (b'/' ∷ joined (m ∷ ns)) h.0

-- The first name is popped, and the path of the others is left.
pub pop-joined :
    (full ptr name : Bytes) (names : List Bytes)
    → All IsName (name ∷ names)
    → skip_slash ptr ≡ joined (name ∷ names)
    → (rest : Bytes) × (pop (record { reqpath = full; argptr = ptr })
        ≡ (name, record { reqpath = full; argptr = rest }))
      × (skip_slash rest ≡ joined names)
      × (rest ≡ joined names)
unfolding pop
pop-joined full ptr name [] h e = (
  [],
  ap (popped (record { reqpath = full; argptr = ptr })) e ∙ popped_last full ptr name h.0,
  refl,
  refl,
)
pop-joined full ptr name (n ∷ ns) h e = (
  joined (n ∷ ns),
  ap (popped (record { reqpath = full; argptr = ptr })) e
      ∙ popped_next full ptr name (joined (n ∷ ns)) h.0,
  skip_slash-joined n ns h.1,
  refl,
)

-- The names that are left are popped, once the slash in front is passed over.
pops_left :
    (full ptr name : Bytes) (names : List Bytes)
    → All IsName (name ∷ names)
    → skip_slash ptr ≡ joined (name ∷ names)
    → pops (length (name ∷ names)) (record { reqpath = full; argptr = ptr })
      ≡ (name ∷ names, record { reqpath = full; argptr = [] })
unfolding pops
pops_left full ptr name [] h e =
    let (rest, first, skipped, is_rest) = pop-joined full ptr name [] h e in
    ap (λ r. (r.0 ∷ [], r.1)) first
    ∙ ap (λ s. (name ∷ [], record { reqpath = full; argptr = s })) is_rest
pops_left full ptr name (n ∷ ns) h e =
    let (rest, first, skipped, is_rest) = pop-joined full ptr name (n ∷ ns) h e in
    ap (λ r. let (later, end) = pops (length (n ∷ ns)) r.1 in (r.0 ∷ later, end)) first
    ∙ ap (λ r. (name ∷ r.0, r.1)) (pops_left full rest n ns h.1 skipped)

-- The names of a path, with a slash in front, are popped one after the other, and then nothing is
-- left; the path itself stays, so that it can be taken apart again.
pub pops-joined :
    (name : Bytes) (names : List Bytes)
    → All IsName (name ∷ names)
    → pops (length (name ∷ names)) (new_request (b'/' ∷ joined (name ∷ names)))
      ≡ (name ∷ names, record { reqpath = b'/' ∷ joined (name ∷ names); argptr = [] })
pops-joined name names h =
    pops_left (b'/' ∷ joined (name ∷ names)) (b'/' ∷ joined (name ∷ names)) name names h refl
