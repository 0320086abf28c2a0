-- ===== src/Base64/Blocks.antt =====
-- `encode` without its loop: three bytes at a time.
use libudjat.Base.{ℕ, ◌≡◌, ◌∙◌, [], ◌∷◌, ◌++◌, foldl, append-nil, append_assoc, Bytes, take}
use libudjat.Base64.{quad, encode_step, pad, encode_tail, encode}

unfoldable pub blocks : Bytes → Bytes
blocks [] = []
blocks (x ∷ []) = take 2 (quad x 0 0) ++ pad 2
blocks (x ∷ y ∷ []) = take 3 (quad x y 0) ++ pad 1
blocks (x ∷ y ∷ z ∷ rest) = quad x y z ++ blocks rest

loop-blocks :
    (bytes : Bytes) (x y z : ℕ) (r : Bytes)
    → encode_tail (foldl encode_step (record { count = 0; a0 = x; a1 = y; a2 = z; ret = r }) bytes)
      ≡ r ++ blocks bytes
unfolding blocks encode_step encode_tail
loop-blocks [] x y z r = rw append-nil
loop-blocks (a ∷ []) x y z r = append_assoc r (take 2 (quad a 0 0)) (pad 2)
loop-blocks (a ∷ b ∷ []) x y z r = append_assoc r (take 3 (quad a b 0)) (pad 1)
loop-blocks (a ∷ b ∷ c ∷ rest) x y z r =
    loop-blocks rest a b c (r ++ quad a b c) ∙ append_assoc r (quad a b c) (blocks rest)

pub encode-blocks : (bytes : Bytes) → encode bytes ≡ blocks bytes
unfolding encode
encode-blocks bytes = loop-blocks bytes 0 0 0 []
