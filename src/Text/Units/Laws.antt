-- ===== src/Text/Units/Laws.antt =====
-- The unit chosen is the largest that fits; a named unit multiplies; `as_ull` misses its unit.
use libudjat.Base.{
  ℕ, zero, suc, ◌*◌, ◌%◌, ◌^◌, ◌≤◌, ◌<◌, ◌≡◌, refl, ◌⊎◌, false, [], ◌∷◌, ◌++◌, arith, Bytes, codes,
  get_or, is_space,
}
use libudjat.Text.Strip.{chug}
use libudjat.Text.Strip.Laws.{AreSpaces}
use libudjat.Text.Units.{unit_names, select_unit, string_to_byte}

-- The unit is a power of 1024 with its name; it is no larger than the value, and 1024 of it are
-- more than the value, unless the smallest or the largest unit is chosen.
pub select_unit_fits :
    (value : ℕ)
    → ((select_unit value).divisor ≡ 1024 ^ (select_unit value).name)
      × (((select_unit value).name ≡ 0) ⊎ ((select_unit value).divisor ≤ value))
      × (((select_unit value).name ≡ 4) ⊎ (value < 1024 * (select_unit value).divisor))
unfolding select_unit
select_unit_fits value = (ground arith, ground arith, ground arith)

chug-unit : (b t : Bytes) (c : ℕ) → AreSpaces b → is_space c ≡ false → chug (b ++ (c ∷ t)) ≡ c ∷ t
unfolding chug
chug-unit [] t c h k = rw k
chug-unit (x ∷ b) t c h k = rw h.0 (chug-unit b t c h.1 k)

-- A unit behind blanks multiplies the value by its power of 1024, modulo 2 ^ 64.
pub string_to_byte-unit :
    (value k : ℕ) (b : Bytes)
    → AreSpaces b
    → k < 5
    → string_to_byte value (b ++ get_or unit_names k []) ≡ 1024 ^ k * value % 2 ^ 64
unfolding string_to_byte
string_to_byte-unit value zero b h k = rw (chug-unit b [] b'B' h refl, string_to_byte)
string_to_byte-unit value (suc zero) b h k =
    rw (chug-unit b (codes "B") b'K' h refl, string_to_byte)
string_to_byte-unit value (suc (suc zero)) b h k =
    rw (chug-unit b (codes "B") b'M' h refl, string_to_byte)
string_to_byte-unit value (suc (suc (suc zero))) b h k =
    rw (chug-unit b (codes "B") b'G' h refl, string_to_byte)
string_to_byte-unit value (suc (suc (suc (suc zero)))) b h k =
    rw (chug-unit b (codes "B") b'T' h refl, string_to_byte)
string_to_byte-unit value (suc (suc (suc (suc (suc k))))) b h l = absurd (omega arith)
