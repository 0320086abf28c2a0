-- ===== src/Agent/Path/Prefix.antt =====
-- `find` compares names by the length of the piece of the path only.
use libudjat.Base.{
  ℕ, suc, ◌≡◌, refl, Bool, true, false, none, some, [], ◌∷◌, ◌++◌, ◌==◌, ==_refl, Bytes, codes,
  length, All, to_lower, ncase_eq, n_eq, ok,
}
use libudjat.Text.Split.{find_sub}
use libudjat.Agent.Path.{
  name_length, rest_of, locate, Found, enter, find_child, find, Node, Nodes, node, more,
}

-- No slash in the text.
abbrev pub NoSlash : Bytes → Type 0
NoSlash = All (λ c. (c == b'/') ≡ false)

find_sub-slash : (p : Bytes) → NoSlash p → find_sub (codes "/") p ≡ none
unfolding find_sub n_eq
find_sub-slash [] h = refl
find_sub-slash (c ∷ cs) (h, hs) = rw (h, find_sub-slash cs hs) refl

ncase_eq-append : (p q : Bytes) → ncase_eq (length p) (p ++ q) p ≡ true
unfolding ncase_eq
ncase_eq-append [] q = refl
ncase_eq-append (c ∷ cs) q = rw (==_refl (to_lower c), ncase_eq-append cs q) refl

name_length-slash : (p : Bytes) → NoSlash p → name_length p ≡ length p
unfolding name_length
name_length-slash p h = rw (find_sub-slash p h, name_length) refl

rest_of-slash : (p : Bytes) → NoSlash p → rest_of p ≡ []
unfolding rest_of
rest_of-slash p h = rw (find_sub-slash p h, rest_of) refl

find_child-append :
    (below : Node → Found) (p q name : Bytes) (required autoins : Bool) (g f : Nodes)
    → NoSlash p
    → find_child below p required autoins (node name (more (node (p ++ q) g) f))
      ≡ some (ok (some (0 ∷ []), node name (more (node (p ++ q) g) f)))
unfolding find_child enter locate
find_child-append below p q name required autoins g f h =
    rw (name_length-slash p h, ncase_eq-append p q, rest_of-slash p h, find_child) refl

-- A path of one name gives the first child whose name begins with it, also where the name goes on,
-- and whatever the other children are called.
pub find_takes_prefix :
    (fuel c : ℕ) (cs more_of_it name : Bytes) (required autoins : Bool) (g f : Nodes)
    → NoSlash (c ∷ cs)
    → find
        (suc fuel)
        (c ∷ cs)
        required
        autoins
        (node name (more (node ((c ∷ cs) ++ more_of_it) g) f))
      ≡ some (ok (some (0 ∷ []), node name (more (node ((c ∷ cs) ++ more_of_it) g) f)))
unfolding find
find_takes_prefix fuel c cs more_of_it name required autoins g f h =
    rw h.0 (find_child-append _ (c ∷ cs) more_of_it name required autoins g f h)
