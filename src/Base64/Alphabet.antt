-- ===== src/Base64/Alphabet.antt =====
-- The table of base64.cc: looking a character up undoes `base64_chars`.
use libudjat.Base.{
  ℕ, ◌<◌, ◌≡◌, refl, Bool, true, false, not, ◌&&◌, arith, ◌==◌, passes_below, passes_below_at,
}
use libudjat.Base64.{is_base64, char_of, value_of}

-- One test for each value below 64.
is_sound : ℕ → Bool
is_sound k = value_of (char_of k) == k && (is_base64 (char_of k) && not (char_of k == b'='))

alphabet_table : passes_below is_sound 64 ≡ true
unfolding is_sound passes_below value_of char_of is_base64
alphabet_table = refl

is_sound_parts :
    (k : ℕ)
    → is_sound k ≡ true
    → (value_of (char_of k) ≡ k) × (is_base64 (char_of k) ≡ true) × ((char_of k == b'=') ≡ false)
unfolding is_sound
is_sound_parts k h = ground arith

-- What `encode` writes for a value below 64 is read back by `decode` as that value.
pub char_of_sound :
    (k : ℕ)
    → k < 64
    → (value_of (char_of k) ≡ k) × (is_base64 (char_of k) ≡ true) × ((char_of k == b'=') ≡ false)
char_of_sound k h = is_sound_parts k (passes_below_at is_sound 64 k alphabet_table h)
