-- ===== src/Quark/Examples.antt =====
-- Tests of Quark.
use libudjat.Base.{◌≡◌, refl, true, some, [], ◌∷◌, ◌==◌, if◌then◌else◌, codes, bytes_eq}
use libudjat.Quark.{search, insert, intern, find, Quarks}

-- The same text stands at 1 and at 2, and another at 3, which is stored.
abbrev quarks : Quarks
quarks = record {
  memory = λ p. if p == 3 then codes "cpu" else codes "disk";
  stored = 3 ∷ [];
  allocated = [];
}

find-copy : (find 9 true (some 1) quarks).0 ≡ some 9
unfolding find intern insert search bytes_eq
find-copy = refl
