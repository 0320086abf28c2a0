-- ===== src/Text/Expand/Examples.antt =====
-- Tests of Text.Expand.
use mathlib.Core.Option
use libudjat.Base.{
  ◌≡◌, refl, subst, Bool, true, false, Option, none, some, if◌then◌else◌, Bytes, codes, count,
  bytes_eq, c_str, ok,
}
use libudjat.Text.Split.{find_sub, split}
use libudjat.Text.Strip.{is_number}
use libudjat.Text.Units.{scan_digits}
use libudjat.Text.Expand.{range_of_values, range_of, expand_at, expand_loop, expand}
use libudjat.Text.Expand.Total.{HasResult, expand-total}

-- The key `name` has a value.
abbrev names : Bytes → Option Bytes
names key = if bytes_eq key (codes "name") then some (codes "agent") else none

expand-name :
    expand b'$' names (codes "an ${name} of ${it}") ≡ some (ok (codes "an agent of ${it}"))
unfolding expand expand_loop expand_at range_of find_sub c_str bytes_eq
expand-name = refl

expand-range : expand b'$' names (codes "${name[1:3]}") ≡ some (ok (codes "ge"))
unfolding expand expand_loop expand_at range_of range_of_values find_sub c_str bytes_eq split
    is_number scan_digits
expand-range = refl

names_clear : (key value : Bytes) → names key ≡ some value → count b'$' value ≡ 0
names_clear key value h = by_test (bytes_eq key (codes "name")) h
  where
    by_test :
        (b : Bool) → (if b then some (codes "agent") else none) ≡ some value → count b'$' value ≡ 0
    by_test true e = subst (λ v. count b'$' v ≡ 0) (Option.some_inj.0 e) refl
    by_test false e = absurd cc

expand-total_example : HasResult (expand b'$' names (codes "an ${name}"))
expand-total_example = expand-total b'$' names (codes "an ${name}") names_clear
