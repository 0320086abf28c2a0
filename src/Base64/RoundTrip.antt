-- ===== src/Base64/RoundTrip.antt =====
-- `decode` reads back what `encode` wrote, into a buffer with room for one byte more.
use libudjat.Base.{
  ℕ, zero, suc, ◌+◌, ◌*◌, ◌/◌, ◌%◌, ◌<◌, ◌≡◌, refl, ap, ◌∙◌, false, some, [], ◌∷◌, ◌++◌, append-nil,
  append_assoc, arith, ◌==◌, Bytes, length, length-append, AreBytes,
}
use libudjat.Base64.{
  char_of, quad, pad, encode, ◌>>=◌, store, triple, take_char, flush_quad, decode_step, decode_loop,
  decode_tail, decode, Decoder, going,
}
use libudjat.Base64.Blocks.{blocks, encode-blocks}
use libudjat.Base64.Alphabet.{char_of_sound}

-- The four values of a block.
abbrev first : ℕ → ℕ
first x = x / 4 % 64

abbrev second : ℕ → ℕ → ℕ
second x y = (x % 4 * 16 + y / 16 % 16) % 256

abbrev third : ℕ → ℕ → ℕ
third y z = (y % 16 * 4 + z / 64 % 4) % 256

abbrev fourth : ℕ → ℕ
fourth z = z % 64

pub triple-block :
    (x y z : ℕ)
    → x < 256
    → y < 256
    → z < 256
    → triple (first x) (second x y) (third y z) (fourth z) ≡ x ∷ y ∷ z ∷ []
unfolding triple
triple-block x y z hx hy hz = ground arith

pub store-fits :
    (maxlen : ℕ) (cs out : Bytes)
    → length out + length cs < maxlen
    → store maxlen out cs ≡ going (out ++ cs)
unfolding store
store-fits maxlen [] out h = rw append-nil
store-fits maxlen (c ∷ cs) out h = ground (
  arith,
  length-append out (c ∷ []),
  store-fits maxlen cs (out ++ c ∷ []),
  append_assoc out (c ∷ []) cs,
)

abbrev at : ℕ → ℕ → ℕ → ℕ → ℕ → Bytes → Decoder
at n p q r t out = record { count = n; b0 = p; b1 = q; b2 = r; b3 = t; out = out }

-- A character of the alphabet is taken in.
loop_next :
    (maxlen k : ℕ) (s : Decoder) (cs : Bytes)
    → k < 64
    → (s.count + 1 == 4) ≡ false
    → decode_loop maxlen s (char_of k ∷ cs) ≡ decode_loop maxlen (take_char s (char_of k)) cs
unfolding decode_loop decode_step
loop_next maxlen k s cs h n = ground (arith, char_of_sound k h)

-- The fourth character of a block stores three bytes.
loop_last :
    (maxlen t i j k l : ℕ) (out cs : Bytes)
    → i < 64
    → j < 64
    → k < 64
    → l < 64
    → length out + 3 < maxlen
    → decode_loop maxlen (at 3 (char_of i) (char_of j) (char_of k) t out) (char_of l ∷ cs)
      ≡ decode_loop maxlen (at 0 i j k l (out ++ triple i j k l)) cs
unfolding decode_loop decode_step flush_quad triple
loop_last maxlen t i j k l out cs hi hj hk hl room = ground (
  arith,
  char_of_sound i hi,
  char_of_sound j hj,
  char_of_sound k hk,
  char_of_sound l hl,
  store-fits maxlen (triple i j k l) out,
)

module _ (maxlen p q r t : ℕ) (out : Bytes) where
  loop_two :
      (i j : ℕ) (cs : Bytes)
      → i < 64
      → j < 64
      → decode_loop maxlen (at 0 p q r t out) (char_of i ∷ char_of j ∷ cs)
        ≡ decode_loop maxlen (at 2 (char_of i) (char_of j) r t out) cs
  loop_two i j cs hi hj =
      loop_next maxlen i (at 0 p q r t out) (char_of j ∷ cs) hi refl
      ∙ loop_next maxlen j (at 1 (char_of i) q r t out) cs hj refl

  loop_three :
      (i j k : ℕ) (cs : Bytes)
      → i < 64
      → j < 64
      → k < 64
      → decode_loop maxlen (at 0 p q r t out) (char_of i ∷ char_of j ∷ char_of k ∷ cs)
        ≡ decode_loop maxlen (at 3 (char_of i) (char_of j) (char_of k) t out) cs
  loop_three i j k cs hi hj hk =
      loop_two i j (char_of k ∷ cs) hi hj
      ∙ loop_next maxlen k (at 2 (char_of i) (char_of j) r t out) cs hk refl

  -- A whole block.
  loop_block :
      (x y z : ℕ) (cs : Bytes)
      → x < 256
      → y < 256
      → z < 256
      → length out + 3 < maxlen
      → decode_loop maxlen (at 0 p q r t out) (quad x y z ++ cs)
        ≡ decode_loop maxlen
            (at 0 (first x) (second x y) (third y z) (fourth z) (out ++ x ∷ y ∷ z ∷ []))
            cs
  unfolding quad
  loop_block x y z cs hx hy hz room =
      loop_three (first x) (second x y) (third y z) (char_of (fourth z) ∷ cs) (omega arith)
        (omega arith) (omega arith)
      ∙ loop_last maxlen t (first x) (second x y) (third y z) (fourth z) out cs (omega arith)
          (omega arith) (omega arith) (omega arith) room
      ∙ rw (triple-block x y z hx hy hz)

-- At `=` the loop ends.
loop-pad : (maxlen n : ℕ) (s : Decoder) → decode_loop maxlen s (pad n) ≡ going s
unfolding decode_loop
loop-pad maxlen zero s = refl
loop-pad maxlen (suc n) s = refl

-- The last block, of one byte and of two.
tail_one :
    (maxlen x r t : ℕ) (out : Bytes)
    → x < 256
    → length out + 1 < maxlen
    → decode_tail maxlen (at 2 (char_of (first x)) (char_of (second x 0)) r t out)
      ≡ going (out ++ x ∷ [])
unfolding decode_tail triple
tail_one maxlen x r t out hx room =
    ground
      (arith, char_of_sound (first x), char_of_sound (second x 0), store-fits maxlen (x ∷ []) out)

tail_two :
    (maxlen x y t : ℕ) (out : Bytes)
    → x < 256
    → y < 256
    → length out + 2 < maxlen
    → decode_tail maxlen
        (at 3 (char_of (first x)) (char_of (second x y)) (char_of (third y 0)) t out)
      ≡ going (out ++ x ∷ y ∷ [])
unfolding decode_tail triple
tail_two maxlen x y t out hx hy room = ground (
  arith,
  char_of_sound (first x),
  char_of_sound (second x y),
  char_of_sound (third y 0),
  store-fits maxlen (x ∷ y ∷ []) out,
)

tail_none :
    (maxlen p q r t : ℕ) (out : Bytes)
    → (decode_loop maxlen (at 0 p q r t out) [] >>= decode_tail maxlen) ≡ going (out ++ [])
unfolding decode_loop decode_tail
tail_none maxlen p q r t out = rw append-nil

decode-blocks :
    (maxlen : ℕ) (bytes : Bytes) (p q r t : ℕ) (out : Bytes)
    → AreBytes bytes
    → length out + length bytes < maxlen
    → (decode_loop maxlen (at 0 p q r t out) (blocks bytes) >>= decode_tail maxlen)
      ≡ going (out ++ bytes)
unfolding blocks quad
decode-blocks maxlen [] p q r t out h room = tail_none maxlen p q r t out
decode-blocks maxlen (x ∷ []) p q r t out h room =
    rw
      (
        loop_two maxlen p q r t out (first x) (second x 0) (pad 2) (omega arith) (omega arith),
        loop-pad maxlen 2,
      )
      (tail_one maxlen x r t out h.0 room)
decode-blocks maxlen (x ∷ y ∷ []) p q r t out h room =
    rw
      (
        loop_three maxlen p q r t out (first x) (second x y) (third y 0) (pad 1) (omega arith)
            (omega arith) (omega arith),
        loop-pad maxlen 1,
      )
      (tail_two maxlen x y t out h.0 h.1.0 room)
decode-blocks maxlen (x ∷ y ∷ z ∷ rest) p q r t out h room =
    rw (loop_block maxlen p q r t out x y z (blocks rest) h.0 h.1.0 h.1.1.0 (omega arith)) (
      decode-blocks maxlen rest _ _ _ _ (out ++ x ∷ y ∷ z ∷ []) h.1.1.1
        (omega (arith, length-append out (x ∷ y ∷ z ∷ [])))
      ∙ ap going (append_assoc out (x ∷ y ∷ z ∷ []) rest))

-- Every list of bytes comes back whole from `decode (encode bytes)`, with its length and the final 0.
pub decode-encode :
    (bytes : Bytes) (maxlen : ℕ)
    → AreBytes bytes
    → length bytes < maxlen
    → decode (encode bytes) maxlen
      ≡ record { result = some (length bytes); stored = bytes ++ 0 ∷ [] }
unfolding decode
decode-encode bytes maxlen h room =
    rw (encode-blocks bytes, decode-blocks maxlen bytes 0 0 0 0 [] h (omega arith))
