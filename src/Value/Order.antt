-- ===== src/Value/Order.antt =====
-- The order of the keys of a map, and what a look-up finds behind an insertion.
use libudjat.Base.{◌≡◌, refl, ap, Bool, true, false, [], ◌∷◌, arith, if◌then◌else◌, Bytes, bytes_eq}
use libudjat.Value.{less, put_member, Value, Members, object, no_members, member}

pub less_asym : (xs ys : Bytes) → less xs ys ≡ true → less ys xs ≡ false
unfolding less
less_asym xs [] h = cc
less_asym [] (y ∷ ys) h = refl
less_asym (x ∷ xs) (y ∷ ys) h = ground (arith, less_asym xs ys)

pub less_trans : (xs ys zs : Bytes) → less xs ys ≡ true → less ys zs ≡ true → less xs zs ≡ true
unfolding less
less_trans xs [] zs h k = cc
less_trans xs (y ∷ ys) [] h k = cc
less_trans [] (y ∷ ys) (z ∷ zs) h k = refl
less_trans (x ∷ xs) (y ∷ ys) (z ∷ zs) h k = ground (arith, less_trans xs ys zs)

pub less_not_eq : (xs ys : Bytes) → less xs ys ≡ true → bytes_eq ys xs ≡ false
unfolding less bytes_eq
less_not_eq xs [] h = cc
less_not_eq [] (y ∷ ys) h = refl
less_not_eq (x ∷ xs) (y ∷ ys) h = ground (arith, less_not_eq xs ys)

pub less_is_not_eq : (xs ys : Bytes) → less xs ys ≡ true → bytes_eq xs ys ≡ false
unfolding less bytes_eq
less_is_not_eq xs [] h = cc
less_is_not_eq [] (y ∷ ys) h = refl
less_is_not_eq (x ∷ xs) (y ∷ ys) h = ground (arith, less_is_not_eq xs ys)

pub bytes_eq_refl : (xs : Bytes) → bytes_eq xs xs ≡ true
unfolding bytes_eq
bytes_eq_refl [] = refl
bytes_eq_refl (x ∷ xs) = ground (arith, bytes_eq_refl xs)

-- The keys of a map ascend, in the objects inside it too.
abbrev pub Above : Bytes → Members → Type 0
Above key no_members = Unit
Above key (member k v ms) = less key k ≡ true

unfoldable mutual
  pub IsOrdered : Value → Type 0
  IsOrdered (object ms) = AreOrdered ms
  IsOrdered _ = Unit

  pub AreOrdered : Members → Type 0
  AreOrdered no_members = Unit
  AreOrdered (member k v ms) = Above k ms × IsOrdered v × AreOrdered ms

-- Every key of the map is below `key`.
abbrev pub Below : Members → Bytes → Type 0
Below no_members key = Unit
Below (member k v ms) key = (less k key ≡ true) × Below ms key

-- A member at the end.
abbrev pub add_last : Members → Bytes → Value → Members
add_last no_members key v = member key v no_members
add_last (member k w ms) key v = member k w (add_last ms key v)

abbrev pub join : Members → Members → Members
join no_members ns = ns
join (member k v ms) ns = member k v (join ms ns)

pub join-add_last :
    (ms ns : Members) (key : Bytes) (v : Value)
    → join (add_last ms key v) ns ≡ join ms (member key v ns)
join-add_last no_members ns key v = refl
join-add_last (member k w ms) ns key v = ap (member k w) (join-add_last ms ns key v)

pub Below-add_last :
    (ms : Members) (key top : Bytes) (v : Value)
    → Below ms key
    → less key top ≡ true
    → Below (add_last ms key v) top
Below-add_last no_members key top v h l = (l, tt)
Below-add_last (member k w ms) key top v h l =
    (less_trans k key top h.0 l, Below-add_last ms key top v h.1 l)

-- A key above all others is put at the end.
pub put_member-add_last :
    (ms : Members) (key : Bytes) (v : Value)
    → Below ms key
    → put_member key v ms ≡ add_last ms key v
unfolding put_member
put_member-add_last no_members key v h = refl
put_member-add_last (member k w ms) key v h =
    rw (less_not_eq k key h.0, less_asym k key h.0)
      (ap (member k w) (put_member-add_last ms key v h.1))

-- Every key of the one map is below the keys of the other.
abbrev pub Reaches : Members → Members → Type 0
Reaches to no_members = Unit
Reaches to (member k v ms) = Below to k

pub Reaches-add_last :
    (to ms : Members) (key : Bytes) (v : Value)
    → Above key ms
    → Below to key
    → Reaches (add_last to key v) ms
Reaches-add_last to no_members key v a b = tt
Reaches-add_last to (member k w ms) key v a b = Below-add_last to key k v b a

pub Reaches-no_members : (ms : Members) → Reaches no_members ms
Reaches-no_members no_members = tt
Reaches-no_members (member k v ms) = tt

pub less_total : (xs ys : Bytes) → bytes_eq xs ys ≡ false → less xs ys ≡ false → less ys xs ≡ true
unfolding less bytes_eq
less_total [] [] e h = cc
less_total [] (y ∷ ys) e h = cc
less_total (x ∷ xs) [] e h = refl
less_total (x ∷ xs) (y ∷ ys) e h = ground (arith, less_total xs ys)

pub Above-put_member :
    (x key : Bytes) (v : Value) (ms : Members)
    → less x key ≡ true
    → Above x ms
    → Above x (put_member key v ms)
unfolding put_member
Above-put_member x key v no_members l a = l
Above-put_member x key v (member k w ms) l a = by_test (bytes_eq key k) (less key k)
  where
    by_test :
        (e b : Bool)
        → Above x (
            if e
            then member k v ms
            else if b
            then member key v (member k w ms)
            else member k w (put_member key v ms))
    by_test true b = a
    by_test false true = l
    by_test false false = a

-- An insertion keeps the order.
pub put_member-AreOrdered :
    (key : Bytes) (v : Value) (ms : Members)
    → IsOrdered v
    → AreOrdered ms
    → AreOrdered (put_member key v ms)
unfolding put_member AreOrdered
put_member-AreOrdered key v no_members h o = (tt, h, tt)
put_member-AreOrdered key v (member k w ms) h o =
    by_test (bytes_eq key k) (less key k) (put_member-AreOrdered key v ms h o.2) refl refl
  where
    by_test :
        (e b : Bool)
        → AreOrdered (put_member key v ms)
        → bytes_eq key k ≡ e
        → less key k ≡ b
        → AreOrdered (
            if e
            then member k v ms
            else if b
            then member key v (member k w ms)
            else member k w (put_member key v ms))
    by_test true b ih p q = (o.0, h, o.2)
    by_test false true ih p q = (q, h, o)
    by_test false false ih p q = (Above-put_member k key v ms (less_total key k p q) o.0, o.1, ih)

-- What is above a key is above all that are below it.
pub Above-less : (x k : Bytes) (ms : Members) → less x k ≡ true → Above k ms → Above x ms
Above-less x k no_members l a = tt
Above-less x k (member j v ms) l a = less_trans x k j l a
