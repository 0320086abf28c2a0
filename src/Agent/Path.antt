-- ===== src/Agent/Path.antt =====
-- src/library/agent/child.cc (`find`) and path.cc (`getFromPath`): an agent is looked up by the path
-- of its names. An agent stands here as its name and its children, and is named by its place: the
-- index of each child on the way. The recursion runs on fuel for the path; `none` is a run out.
pub mod Lookup
pub mod Prefix
mod Examples
use mathlib.Core.Option
use libudjat.Base.{
  ℕ, zero, suc, ◌+◌, Bool, Option, none, some, List, [], ◌∷◌, ◌==◌, if◌then◌else◌, Bytes, codes,
  length, take, drop, ncase_eq, Result, err, ok,
}
use libudjat.Text.Split.{find_sub}

mutual
  pub data Node : Type 0 where
    node : Bytes → Nodes → Node

  pub data Nodes : Type 0 where
    leaf : Nodes
    more : Node → Nodes → Nodes

pub data Error : Type 0 where
  invalid_request not_found : Error

abbrev pub name_of : Node → Bytes
name_of (node name cs) = name

-- `if(*path == '/') path++;`
abbrev pub skip_slash : Bytes → Bytes
skip_slash [] = []
skip_slash (c ∷ cs) = if c == b'/' then cs else c ∷ cs

-- The length of the first name of a path, and what stands behind the slash after it.
unfoldable pub name_length : Bytes → ℕ
unfolding find_sub
name_length path = elim (find_sub (codes "/") path) [ none ↦ length path | some n ↦ n ]

unfoldable pub rest_of : Bytes → Bytes
unfolding find_sub
rest_of path = elim (find_sub (codes "/") path) [ none ↦ [] | some n ↦ drop (n + 1) path ]

-- The first child whose name is the same in the first `len` characters.
unfoldable pub locate : ℕ → Bytes → Nodes → Option (ℕ × Node)
unfolding ncase_eq
locate len path leaf = none
locate len path (more t f) =
    let rest = Option.map (λ r. (suc r.0, r.1)) (locate len path f) in
    if ncase_eq len (name_of t) path then some (0, t) else rest

abbrev pub put_at : ℕ → Node → Nodes → Nodes
put_at ix t leaf = leaf
put_at zero t (more u f) = more t f
put_at (suc ix) t (more u f) = more u (put_at ix t f)

-- `push_back`
abbrev pub push_back : Nodes → Node → Nodes
push_back leaf t = more t leaf
push_back (more u f) t = more u (push_back f t)

abbrev pub size : Nodes → ℕ
size leaf = 0
size (more t f) = suc (size f)

-- The agent that is found, if there is one, and the tree afterwards.
abbrev pub Found : Type 0
Found = Option (Result Error (Option (List ℕ) × Node))

-- The place is found from the child `ix`, which may have changed.
abbrev pub wrapped : ℕ → Bytes → Nodes → Found → Found
wrapped ix name f none = none
wrapped ix name f (some (err e)) = some (err e)
wrapped ix name f (some (ok (found, u))) =
    some (ok (Option.map (λ place. ix ∷ place) found, node name (put_at ix u f)))

-- `child->find(ptr+1,…)` or `return child;`
unfoldable pub enter : (Node → Found) → Bytes → Bytes → Nodes → ℕ × Node → Found
enter g [] name f (ix, t) = some (ok (some (ix ∷ []), node name f))
enter g (c ∷ rest) name f (ix, t) = wrapped ix name f (g t)

-- `find`, when the path is not empty.
unfoldable pub find_child : (Node → Found) → Bytes → Bool → Bool → Node → Found
unfolding locate name_length rest_of enter
find_child g path required autoins (node name f) = elim (locate (name_length path) path f) [
  | some r ↦ enter g (rest_of path) name f r
  | none ↦
      let t = node (take (name_length path) path) leaf in
      let inserted = enter g (rest_of path) name (push_back f t) (size f, t) in
      if autoins
      then inserted
      else if required
      then some (err not_found)
      else some (ok (none, node name f))
]

unfoldable pub find : ℕ → Bytes → Bool → Bool → Node → Found
unfolding find_child
find zero path required autoins t = none
find (suc fuel) [] required autoins t = some (err invalid_request)
find (suc fuel) (c ∷ cs) required autoins t =
    find_child (find fuel (rest_of (skip_slash (c ∷ cs))) required autoins) (skip_slash (c ∷ cs))
      required autoins t

-- `getFromPath`: the place of the agent that is asked for the value.
unfoldable pub get_from_path : ℕ → Bytes → Node → Option (Option (List ℕ))
unfolding locate name_length rest_of
get_from_path zero path t = none
get_from_path (suc fuel) [] t = some (some [])
get_from_path (suc fuel) (c ∷ cs) (node name f) =
    elim (locate (name_length (skip_slash (c ∷ cs))) (skip_slash (c ∷ cs)) f) [
      | none ↦ some none
      | some r ↦
          Option.map (Option.map (λ place. r.0 ∷ place))
            (get_from_path fuel (rest_of (skip_slash (c ∷ cs))) r.1)
    ]
