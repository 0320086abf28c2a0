-- ===== src/Value/Copy.antt =====
-- What is copied is the same, and what is not copied is refused.
use libudjat.Base.{◌≡◌, refl, sym, ap, ◌∙◌, Option, none, some, ◌>>=◌, Result, err, ok}
use libudjat.Value.{
  lookup, put_member, found_or_new, set, merge_members, Value, Members, Error, undefined, array,
  object, text, timestamp, signed, boolean, unsigned, state, real, fraction, report, no_members,
  member, reserved_type, invalid_type,
}
use libudjat.Value.Order.{
  IsOrdered, AreOrdered, add_last, join, join-add_last, put_member-add_last, Reaches,
  Reaches-add_last, Reaches-no_members,
}

-- Why a value cannot be set to a copy of this one: the first array or report in it.
unfoldable mutual
  pub refusal : Value → Option Error
  refusal (array xs) = some invalid_type
  refusal (report n) = some reserved_type
  refusal (object ms) = refusal_inside ms
  refusal _ = none

  pub refusal_inside : Members → Option Error
  refusal_inside no_members = none
  refusal_inside (member k v ms) = elim (refusal v) [ some e ↦ some e | none ↦ refusal_inside ms ]

abbrev pub outcome : {A : Type 0} → Option Error → A → Result Error A
outcome none a = ok a
outcome (some e) a = err e

join-no_members : (ms : Members) → join ms no_members ≡ ms
join-no_members no_members = refl
join-no_members (member k v ms) = ap (member k v) (join-no_members ms)

mutual
  unfolding set refusal IsOrdered put_member

  set_same : (v old : Value) → IsOrdered v → set v old ≡ outcome (refusal v) v
  set_same undefined old h = refl
  set_same (array xs) old h = refl
  set_same (object ms) old h =
      ap (λ r. r >>= λ ns. ok (object ns)) (merge_same ms no_members h (Reaches-no_members ms))
      ∙ by_outcome (refusal_inside ms)
    where
      by_outcome :
          (o : Option Error) → (outcome o ms >>= λ ns. ok (object ns)) ≡ outcome o (object ms)
      by_outcome none = refl
      by_outcome (some e) = refl
  set_same (text t s) old h = refl
  set_same (timestamp n) old h = refl
  set_same (signed n) old h = refl
  set_same (boolean n) old h = refl
  set_same (unsigned n) old h = refl
  set_same (state n) old h = refl
  set_same (real n) old h = refl
  set_same (fraction n) old h = refl
  set_same (report n) old h = refl

  merge_same :
      (ms to : Members)
      → AreOrdered ms
      → Reaches to ms
      → merge_members ms to ≡ outcome (refusal_inside ms) (join to ms)
  merge_same no_members to h b = ap ok (sym (join-no_members to))
  merge_same (member k v ms) to h b =
      ap (λ r. r >>= λ new. merge_members ms (put_member k new to))
        (set_same v (found_or_new (lookup k to)) h.1)
      ∙ by_refusal (refusal v)
          (merge_same ms (add_last to k v) h.2 (Reaches-add_last to ms k v h.0 b))
    where
      by_refusal :
          (o : Option Error)
          → merge_members ms (add_last to k v)
            ≡ outcome (refusal_inside ms) (join (add_last to k v) ms)
          → (outcome o v >>= λ new. merge_members ms (put_member k new to))
            ≡ outcome
                (elim o [ some e ↦ some e | none ↦ refusal_inside ms ])
                (join to (member k v ms))
      by_refusal (some e) ih = refl
      by_refusal none ih =
          ap (merge_members ms) (put_member-add_last to k v b)
          ∙ ih
          ∙ ap (outcome (refusal_inside ms)) (join-add_last to ms k v)

-- A value, the maps of which are in order, is set to exactly the value that it is set from, whatever
-- it was before; but it throws exactly if there is an array or a report in it, with the exception of
-- the first one.
pub set-outcome : (v old : Value) → IsOrdered v → set v old ≡ outcome (refusal v) v
set-outcome = set_same
