-- ===== src/Base64/Examples.antt =====
-- Tests of Base64.
use libudjat.Base.{◌+◌, ◌*◌, ◌/◌, ◌≤◌, ◌≡◌, refl, some, [], ◌∷◌, ◌++◌, arith, codes, length}
use libudjat.Base64.RoundTrip.{decode-encode}
use libudjat.Base64.Bounds.{decode-le-maxlen, length-encode}
use libudjat.Base64.{is_base64, char_of, value_of, quad, encode, triple, decode}

encode-man : encode (codes "Many hands") ≡ codes "TWFueSBoYW5kcw=="
unfolding encode quad char_of
encode-man = refl

decode-man :
    decode (codes "TWFueSBoYW5kcw==") 11
    ≡ record { result = some 10; stored = codes "Many hands" ++ 0 ∷ [] }
unfolding decode triple value_of is_base64
decode-man = refl

decode-encode_example :
    decode (encode (codes "hi")) 3 ≡ record { result = some 2; stored = codes "hi" ++ 0 ∷ [] }
decode-encode_example = decode-encode (codes "hi") 3 (omega arith) (omega arith)

decode-le-maxlen_example : length (decode (codes "TWFueSBoYW5kcw==") 4).stored ≤ 4
decode-le-maxlen_example = decode-le-maxlen (codes "TWFueSBoYW5kcw==") 4 (omega arith)

length-encode_example : length (encode (codes "hi")) ≡ 4 * ((2 + 2) / 3)
length-encode_example = length-encode (codes "hi")
