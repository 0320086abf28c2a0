-- ===== src/Agent/Path/Lookup.antt =====
-- `getFromPath` asks the agent that `find` gives.
use mathlib.Core.Option
use libudjat.Base.{
  ℕ, zero, suc, ◌+◌, ◌-◌, ◌≤◌, ◌≡◌, refl, ap, subst, ◌∙◌, Bool, true, false, Option, none, some,
  List, [], ◌∷◌, arith, if◌then◌else◌, Bytes, codes, length, drop, length-drop, ncase_eq, ok,
}
use libudjat.Text.Split.{find_sub}
use libudjat.Agent.Path.{
  name_of, skip_slash, name_length, rest_of, locate, put_at, Found, wrapped, enter, find_child,
  find, get_from_path, Node, Nodes, node, leaf, more,
}

length-rest_of : (path : Bytes) → length (rest_of path) ≤ length path - 1
unfolding rest_of
length-rest_of path = shorter (find_sub (codes "/") path)
  where
    shorter :
        (o : Option ℕ)
        → length (elim o as (λ o. Bytes) [ none ↦ [] | some n ↦ drop (n + 1) path ])
          ≤ length path - 1
    shorter none = omega arith
    shorter (some n) = ground (arith, length-drop (n + 1) path)

length-skip_slash : (path : Bytes) → length (skip_slash path) ≤ length path
length-skip_slash [] = omega arith
length-skip_slash (c ∷ cs) = ground arith

put_at-locate :
    (len : ℕ) (path : Bytes) (f : Nodes) (r : ℕ × Node)
    → locate len path f ≡ some r
    → put_at r.0 r.1 f ≡ f
unfolding locate
put_at-locate len path leaf r h = refl
put_at-locate len path (more t f) r h =
    by_name (ncase_eq len (name_of t) path) (locate len path f) (put_at-locate len path f) h
  where
    same :
        {x y : ℕ × Node}
        → x ≡ y
        → put_at x.0 x.1 (more t f) ≡ more t f
        → put_at y.0 y.1 (more t f) ≡ more t f
    same e p = subst (λ z. put_at z.0 z.1 (more t f) ≡ more t f) e p

    by_name :
        (b : Bool) (o : Option (ℕ × Node))
        → ((q : ℕ × Node) → o ≡ some q → put_at q.0 q.1 f ≡ f)
        → (if b then some (0, t) else Option.map (λ r. (suc r.0, r.1)) o) ≡ some r
        → put_at r.0 r.1 (more t f) ≡ more t f
    by_name true o ih e = same (Option.some_inj.0 e) refl
    by_name false none ih e = absurd cc
    by_name false (some q) ih e = same (Option.some_inj.0 e) (ap (more t) (ih q refl))

-- Both give an agent, or none, and `find` changes nothing.
abbrev pub Agree : Option (Option (List ℕ)) → Found → Node → Type 0
Agree got result t =
    (found : Option (List ℕ)) × (got ≡ some found) × (result ≡ some (ok (found, t)))

entered :
    (fuel : ℕ) (rest name : Bytes) (f : Nodes) (r : ℕ × Node)
    → ((c : ℕ) (cs : Bytes)
        → rest ≡ c ∷ cs
        → Agree (get_from_path (suc fuel) (c ∷ cs) r.1) (find fuel (c ∷ cs) false false r.1) r.1)
    → put_at r.0 r.1 f ≡ f
    → Agree
        (Option.map (Option.map (λ place. r.0 ∷ place)) (get_from_path (suc fuel) rest r.1))
        (enter (find fuel rest false false) rest name f r)
        (node name f)
unfolding enter get_from_path
entered fuel [] name f (ix, u) ih same = (some (ix ∷ []), refl, refl)
entered fuel (c ∷ cs) name f (ix, u) ih same = deeper (ih c cs refl)
  where
    deeper :
        Agree (get_from_path (suc fuel) (c ∷ cs) u) (find fuel (c ∷ cs) false false u) u
        → Agree
            (Option.map (Option.map (λ place. ix ∷ place)) (get_from_path (suc fuel) (c ∷ cs) u))
            (wrapped ix name f (find fuel (c ∷ cs) false false u))
            (node name f)
    deeper (found, got, result) = (
      Option.map (λ place. ix ∷ place) found,
      ap (Option.map (Option.map (λ place. ix ∷ place))) got,
      ap (wrapped ix name f) result
          ∙ ap (λ g. some (ok (Option.map (λ place. ix ∷ place) found, node name g))) same,
    )

-- On a path that is not empty, with its length as fuel, `getFromPath` asks the very agent that
-- `find` gives when it need not exist and is not inserted, or both find none; the tree stays.
pub find-get_from_path :
    (fuel c : ℕ) (cs : Bytes) (t : Node)
    → length (c ∷ cs) ≤ fuel
    → Agree (get_from_path (suc fuel) (c ∷ cs) t) (find fuel (c ∷ cs) false false t) t
unfolding get_from_path find find_child
find-get_from_path zero c cs t h = absurd (omega arith)
find-get_from_path (suc fuel) c cs (node name f) h =
    located (locate (name_length path) path f) refl
      (λ u d ds e. find-get_from_path fuel d ds u (subst (λ r. length r ≤ fuel) e rest_fits))
  where
    path : Bytes
    path = skip_slash (c ∷ cs)

    rest_fits : length (rest_of path) ≤ fuel
    rest_fits = omega (arith, length-rest_of path, length-skip_slash (c ∷ cs), h)

    located :
        (o : Option (ℕ × Node))
        → locate (name_length path) path f ≡ o
        → ((u : Node) (d : ℕ) (ds : Bytes)
            → rest_of path ≡ d ∷ ds
            → Agree (get_from_path (suc fuel) (d ∷ ds) u) (find fuel (d ∷ ds) false false u) u)
        → Agree
            (elim o as (λ o. Option (Option (List ℕ))) [
              | none ↦ some none
              | some r ↦
                  Option.map
                    (Option.map (λ place. r.0 ∷ place))
                    (get_from_path (suc fuel) (rest_of path) r.1)
            ])
            (elim o as (λ o. Found) [
              | some r ↦ enter (find fuel (rest_of path) false false) (rest_of path) name f r
              | none ↦ some (ok (none, node name f))
            ])
            (node name f)
    located none e ih = (none, refl, refl)
    located (some r) e ih =
        entered fuel (rest_of path) name f r (ih r.1) (put_at-locate (name_length path) path f r e)
