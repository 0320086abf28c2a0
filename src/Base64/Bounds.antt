-- ===== src/Base64/Bounds.antt =====
-- How much `decode` stores, whatever the text; how long the text of `encode` is.
use libudjat.Base.{
  ℕ, ◌+◌, ◌*◌, ◌/◌, ◌≤◌, ◌<◌, ◌≡◌, refl, inl, inr, not, ◌&&◌, [], ◌∷◌, ◌++◌, arith, leb, ◌==◌,
  Bool-cases, Bytes, length, length-append,
}
use libudjat.Base64.{
  is_base64, quad, encode, ◌>>=◌, store, take_char, flush_quad, decode_step, decode_loop,
  decode_tail, terminate, decode_start, decode, Decoder, Outcome, going, overflow,
}
use libudjat.Base64.Blocks.{blocks, encode-blocks}

-- What holds of the bytes stored while a run goes on, and when it has met `return -1`.
abbrev Holds {ℓ} :
    {A : Type ℓ} → (A → Bytes) → (Bytes → Type 0) → (Bytes → Type 0) → Outcome A → Type 0
Holds f P Q (going a) = P (f a)
Holds f P Q (overflow out) = Q out

abbrev same : Bytes → Bytes
same out = out

abbrev out_of : Decoder → Bytes
out_of s = s.out

-- Any property that `store` keeps is kept by the whole of `decode`.
module _ (maxlen : ℕ) (P Q : Bytes → Type 0)
    (kept : (cs out : Bytes) → P out → Holds same P Q (store maxlen out cs)) where
  rebuild :
      (f : Bytes → Decoder)
      → ((b : Bytes) → P b → P (f b).out)
      → (o : Outcome Bytes) → Holds same P Q o
      → Holds out_of P Q (o >>= λ b. going (f b))
  rebuild f h (going out) g = h out g
  rebuild f h (overflow out) g = g

  flush_quad-Holds : (s : Decoder) → P s.out → Holds out_of P Q (flush_quad maxlen s)
  unfolding flush_quad
  flush_quad-Holds s h = rebuild _ (λ b k. k) (store maxlen s.out _) (kept _ s.out h)

  decode_step-Holds : (s : Decoder) (c : ℕ) → P s.out → Holds out_of P Q (decode_step maxlen s c)
  unfolding decode_step
  decode_step-Holds s c h = elim (Bool-cases (s.count + 1 == 4)) [
    | inl e ↦ rw e (flush_quad-Holds (take_char s c) h)
    | inr e ↦ rw e h
  ]

  loop-Holds : (text : Bytes) (s : Decoder) → P s.out → Holds out_of P Q (decode_loop maxlen s text)
  unfolding decode_loop
  loop-Holds [] s h = h
  loop-Holds (c ∷ cs) s h = elim (Bool-cases (not (c == b'=') && is_base64 c)) [
    | inl e ↦ rw e (go (decode_step maxlen s c) (decode_step-Holds s c h) (loop-Holds cs))
    | inr e ↦ rw e h
  ]
    where
      go :
          (o : Outcome Decoder)
          → Holds out_of P Q o
          → ((t : Decoder) → P t.out → Holds out_of P Q (decode_loop maxlen t cs))
          → Holds out_of P Q (o >>= λ t. decode_loop maxlen t cs)
      go (going t) g ih = ih t g
      go (overflow out) g ih = g

  tail-Holds : (s : Decoder) → P s.out → Holds same P Q (decode_tail maxlen s)
  unfolding decode_tail
  tail-Holds s h = elim (Bool-cases (s.count == 0)) [
    | inl e ↦ rw e h
    | inr e ↦ rw e (kept _ s.out h)
  ]

  decode-Holds :
      (text : Bytes)
      → P []
      → Holds same P Q (decode_loop maxlen decode_start text >>= decode_tail maxlen)
  decode-Holds text h = go (decode_loop maxlen decode_start text) (loop-Holds text decode_start h)
    where
      go : (o : Outcome Decoder) → Holds out_of P Q o → Holds same P Q (o >>= decode_tail maxlen)
      go (going s) g = tail-Holds s g
      go (overflow out) g = g

store-bounds :
    (maxlen : ℕ) (cs out : Bytes)
    → length out < maxlen
    → Holds same (λ o. length o < maxlen) (λ o. length o ≤ maxlen) (store maxlen out cs)
unfolding store
store-bounds maxlen [] out h = h
store-bounds maxlen (c ∷ cs) out h = elim (Bool-cases (leb maxlen (length (out ++ c ∷ [])))) [
  | inl e ↦ rw e (omega (arith, length-append out (c ∷ [])))
  | inr e ↦ rw e (store-bounds maxlen cs (out ++ c ∷ []) (ground arith))
]

terminate-bounds :
    (maxlen : ℕ) (o : Outcome Bytes)
    → Holds same (λ o. length o < maxlen) (λ o. length o ≤ maxlen) o
    → length (terminate o).stored ≤ maxlen
terminate-bounds maxlen (going out) h = omega (arith, length-append out (0 ∷ []))
terminate-bounds maxlen (overflow out) h = h

-- For any text, `decode` stores at most `maxlen` bytes, the final 0 included, if `maxlen` is not 0.
pub decode-le-maxlen :
    (text : Bytes) (maxlen : ℕ) → 0 < maxlen → length (decode text maxlen).stored ≤ maxlen
unfolding decode
decode-le-maxlen text maxlen h = terminate-bounds maxlen _ (
    decode-Holds maxlen (λ o. length o < maxlen) (λ o. length o ≤ maxlen) (store-bounds maxlen) text
      (omega arith))

store_zero :
    (cs out : Bytes)
    → length out ≡ 0
    → Holds same (λ o. length o ≡ 0) (λ o. length o ≡ 1) (store 0 out cs)
unfolding store
store_zero [] out h = h
store_zero (c ∷ cs) out h = ground (arith, length-append out (c ∷ []))

terminate_zero :
    (o : Outcome Bytes)
    → Holds same (λ o. length o ≡ 0) (λ o. length o ≡ 1) o
    → length (terminate o).stored ≡ 1
terminate_zero (going out) h = omega (arith, length-append out (0 ∷ []))
terminate_zero (overflow out) h = h

-- With `maxlen` 0, `decode` stores one byte past the buffer, for every text.
pub decode_zero_overruns : (text : Bytes) → length (decode text 0).stored ≡ 1
unfolding decode
decode_zero_overruns text =
    terminate_zero _ (decode-Holds 0 (λ o. length o ≡ 0) (λ o. length o ≡ 1) store_zero text refl)

length-blocks : (bytes : Bytes) → length (blocks bytes) ≡ 4 * ((length bytes + 2) / 3)
unfolding blocks quad
length-blocks [] = refl
length-blocks (x ∷ []) = refl
length-blocks (x ∷ y ∷ []) = refl
length-blocks (x ∷ y ∷ z ∷ rest) =
    omega (arith, length-blocks rest, length-append (quad x y z) (blocks rest))

-- `encode` writes four characters for each three bytes, begun or whole.
pub length-encode : (bytes : Bytes) → length (encode bytes) ≡ 4 * ((length bytes + 2) / 3)
length-encode bytes = rw encode-blocks (length-blocks bytes)
