-- ===== src/Value/Merge.antt =====
-- What a merge of two objects holds.
use libudjat.Base.{
  ◌≡◌, refl, sym, ap, subst, ◌∙◌, Bool, true, false, Option, none, some, if◌then◌else◌, Bytes,
  bytes_eq, bytes_eq_sound, ◌>>=◌, Result, ok,
}
use libudjat.Value.{
  less, lookup, put_member, found_or_new, merge_members, merge, Value, Members, Error, object,
  no_members, member,
}
use libudjat.Value.Order.{less_is_not_eq, Above, AreOrdered, put_member-AreOrdered, Above-less}
use libudjat.Value.Copy.{refusal, refusal_inside, outcome, set-outcome}

-- What the one has, and else the other.
abbrev pub over : Option Value → Option Value → Option Value
over none o = o
over (some v) o = some v

clash : {A : Type 0} → true ≡ false → A
clash h = cc

pub lookup-put_member :
    (key k : Bytes) (v : Value) (ms : Members)
    → lookup key (put_member k v ms) ≡ (if bytes_eq key k then some v else lookup key ms)
unfolding lookup put_member
lookup-put_member key k v no_members = refl
lookup-put_member key k v (member j w ms) =
    by_test (bytes_eq k j) (less k j) (lookup-put_member key k v ms) refl
  where
    same :
        (p q : Bool) (rest : Option Value)
        → q ≡ p
        → (if q then some v else rest) ≡ (if p then some v else if q then some w else rest)
    same true true rest e = refl
    same false false rest e = refl
    same true false rest e = cc
    same false true rest e = cc

    other :
        (p q : Bool) (rest : Option Value)
        → (p ≡ true → q ≡ false)
        → (if q then some w else if p then some v else rest)
          ≡ (if p then some v else if q then some w else rest)
    other true true rest e = clash (e refl)
    other true false rest e = refl
    other false q rest e = refl

    by_test :
        (e b : Bool)
        → lookup key (put_member k v ms) ≡ (if bytes_eq key k then some v else lookup key ms)
        → bytes_eq k j ≡ e
        → lookup key (
            if e
            then member j v ms
            else if b
            then member k v (member j w ms)
            else member j w (put_member k v ms))
          ≡ (if bytes_eq key k then some v else if bytes_eq key j then some w else lookup key ms)
    by_test true b ih e =
        same (bytes_eq key k) (bytes_eq key j) (lookup key ms)
          (ap (bytes_eq key) (sym (bytes_eq_sound k j e)))
    by_test false true ih e = refl
    by_test false false ih e =
        ap (λ r. if bytes_eq key j then some w else r) ih
        ∙ other (bytes_eq key k) (bytes_eq key j) (lookup key ms)
            (λ p. ap (λ x. bytes_eq x j) (bytes_eq_sound key k p) ∙ e)

lookup-Above : (key : Bytes) (ms : Members) → Above key ms → AreOrdered ms → lookup key ms ≡ none
unfolding lookup AreOrdered
lookup-Above key no_members a o = refl
lookup-Above key (member k v ms) a o =
    rw (less_is_not_eq key k a) (lookup-Above key ms (Above-less key k ms a o.0) o.2)

-- What a loop of a merge comes to.
abbrev pub IsMerged : Members → Members → Result Error Members → Type 0
IsMerged ms to done =
    (r : Members) × (done ≡ ok r)
    × AreOrdered r
    × ((key : Bytes) → lookup key r ≡ over (lookup key ms) (lookup key to))

not_refused :
    (o : Option Error) (rest : Option Error)
    → (elim o [ some e ↦ some e | none ↦ rest ]) ≡ none
    → (o ≡ none) × (rest ≡ none)
not_refused none rest h = (refl, h)
not_refused (some e) rest h = absurd_some h
  where
    absurd_some : some e ≡ none → (some e ≡ none) × (rest ≡ none)
    absurd_some h = cc

merge_members-IsMerged :
    (ms to : Members)
    → AreOrdered ms
    → AreOrdered to
    → refusal_inside ms ≡ none
    → IsMerged ms to (merge_members ms to)
unfolding merge_members refusal_inside AreOrdered lookup
merge_members-IsMerged no_members to h o n = (to, refl, o, λ key. refl)
merge_members-IsMerged (member k v ms) to h o n =
    let parts = not_refused (refusal v) (refusal_inside ms) n in
    let kept = set-outcome v (found_or_new (lookup k to)) h.1 ∙ ap (λ o. outcome o v) parts.0 in
    let (r, e, ordered, found) =
      merge_members-IsMerged ms (put_member k v to) h.2 (put_member-AreOrdered k v to h.1 o)
        parts.1 in
    (
      r,
      ap (λ x. x >>= λ new. merge_members ms (put_member k new to)) kept ∙ e,
      ordered,
      λ key.
          found key
          ∙ ap (over (lookup key ms)) (lookup-put_member key k v to)
          ∙ by_key key (bytes_eq key k) refl,
    )
  where
    by_key :
        (key : Bytes) (b : Bool)
        → bytes_eq key k ≡ b
        → over (lookup key ms) (if b then some v else lookup key to)
          ≡ over (if b then some v else lookup key ms) (lookup key to)
    by_key key false e = refl
    by_key key true e =
        ap (λ o. over o (some v))
          (subst (λ x. lookup x ms ≡ none) (sym (bytes_eq_sound key k e))
            (lookup-Above k ms h.0 h.2))

-- A merge of an object into another, both in order, and with no array or report in the first, gives
-- an object in order that holds at each key what the first has there, and else what the other has.
pub merge-lookup :
    (ms to : Members)
    → AreOrdered ms
    → AreOrdered to
    → refusal_inside ms ≡ none
    → (r : Members) × (merge (object ms) (object to) ≡ ok (object r))
      × AreOrdered r
      × ((key : Bytes) → lookup key r ≡ over (lookup key ms) (lookup key to))
unfolding merge
merge-lookup ms to h o n =
    let (r, e, ordered, found) = merge_members-IsMerged ms to h o n in
    (r, ap (λ x. x >>= λ ns. ok (object ns)) e, ordered, found)
