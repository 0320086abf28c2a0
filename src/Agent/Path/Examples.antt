-- ===== src/Agent/Path/Examples.antt =====
-- Tests of Agent.Path.
use libudjat.Base.{◌≡◌, refl, true, false, some, [], ◌∷◌, arith, codes, ok}
use libudjat.Text.Split.{find_sub}
use libudjat.Agent.Path.{
  name_length, rest_of, locate, enter, find_child, find, get_from_path, Node, node, leaf, more,
}
use libudjat.Agent.Path.Lookup.{Agree, find-get_from_path}

abbrev cpu : Node
cpu = node (codes "cpu") (more (node (codes "load") leaf) leaf)

abbrev root : Node
root = node (codes "root") (more (node (codes "disk") leaf) (more cpu leaf))

find-load : find 9 (codes "/CPU/load") false false root ≡ some (ok (some (1 ∷ 0 ∷ []), root))
unfolding find find_child locate name_length rest_of enter find_sub
find-load = refl

find-inserts :
    find 9 (codes "disk/free") false true root
    ≡ some (
        ok (
          some (0 ∷ 0 ∷ []),
          node
              (codes "root")
              (more (node (codes "disk") (more (node (codes "free") leaf) leaf)) (more cpu leaf)),
        ))
unfolding find find_child locate name_length rest_of enter find_sub
find-inserts = refl

find-get_from_path_example :
    Agree (get_from_path 5 (codes "cpu/") root) (find 4 (codes "cpu/") false false root) root
find-get_from_path_example = find-get_from_path 4 b'c' (codes "pu/") root (omega arith)
