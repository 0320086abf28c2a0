-- ===== src/Base64.antt =====
-- src/library/tools/base64.cc: `Base64::encode` and `Base64::decode`. A masked and shifted byte
-- `(x & m) >> k` is the number of the masked bits, `x / 2 ^ k % 2 ^ n`; what is stored in an
-- unsigned char is taken modulo 256.
pub mod Alphabet
pub mod Blocks
pub mod RoundTrip
pub mod Bounds
mod Examples
use libudjat.Base.{
  ℕ, zero, suc, ◌+◌, ◌-◌, ◌*◌, ◌/◌, ◌%◌, ◌^◌, Bool, not, ◌&&◌, ◌||◌, Option, none, some, [], ◌∷◌,
  ◌++◌, foldl, ltb, leb, ◌==◌, if◌then◌else◌, Bytes, codes, length, get_or, take, is_alnum,
}

-- `base64_chars`
abbrev pub base64_chars : Bytes
base64_chars = codes "ABCDEFGHIJKLMNOPQRSTUVWXYZabcdefghijklmnopqrstuvwxyz0123456789+/"

-- `std::string::find` of a character, from position `i` on; `npos` is 2 ^ 64 - 1.
pub find_from : ℕ → ℕ → Bytes → ℕ
find_from i c [] = 2 ^ 64 - 1
find_from i c (x ∷ xs) = if x == c then i else find_from (i + 1) c xs

-- `is_base64`
unfoldable pub is_base64 : ℕ → Bool
unfolding is_alnum
is_base64 c = is_alnum c || c == b'+' || c == b'/'

-- `base64_chars[char_array_4[i]]`
unfoldable pub char_of : ℕ → ℕ
char_of k = get_or base64_chars k 0

-- `base64_chars.find(c)`, as it is stored in an unsigned char.
unfoldable pub value_of : ℕ → ℕ
unfolding find_from
value_of c = find_from 0 c base64_chars % 256

-- The variables of `encode`'s loop: `i`, `char_array_3` and `ret`.
pub record Encoder : Type 0 where
  pub count : ℕ
  pub a0 : ℕ
  pub a1 : ℕ
  pub a2 : ℕ
  pub ret : Bytes

-- The four values of `char_array_4`, looked up.
unfoldable pub quad : ℕ → ℕ → ℕ → Bytes
quad a0 a1 a2 =
    char_of (a0 / 4 % 64)
    ∷ char_of ((a0 % 4 * 16 + a1 / 16 % 16) % 256)
    ∷ char_of ((a1 % 16 * 4 + a2 / 64 % 4) % 256)
    ∷ char_of (a2 % 64)
    ∷ []

-- `char_array_3[i++] = c`
abbrev pub put : Encoder → ℕ → Encoder
put s c = record s {
  count = s.count + 1;
  a0 = if s.count == 0 then c else s.a0;
  a1 = if s.count == 1 then c else s.a1;
  a2 = if s.count == 2 then c else s.a2;
}

-- The `if (i == 3)` of the loop.
abbrev pub emit_full : Encoder → Encoder
emit_full s = if s.count == 3 then record s { count = 0; ret = s.ret ++ quad s.a0 s.a1 s.a2 } else s

-- One round of `while (in_len--)`.
unfoldable pub encode_step : Encoder → ℕ → Encoder
encode_step s c = emit_full (put s c)

-- `while((i++ < 3)) ret += '='`, for the rounds left.
abbrev pub pad : ℕ → Bytes
pad zero = []
pad (suc n) = b'=' ∷ pad n

-- The `if (i)` behind the loop: the unused bytes are zeroed, and `i + 1` characters are written.
unfoldable pub encode_tail : Encoder → Bytes
encode_tail s =
    if s.count == 0
    then s.ret
    else s.ret
      ++ take (s.count + 1)
          (quad s.a0 (if ltb 1 s.count then s.a1 else 0) (if ltb 2 s.count then s.a2 else 0))
      ++ pad (3 - s.count)

abbrev pub encode_start : Encoder
encode_start = record { count = 0; a0 = 0; a1 = 0; a2 = 0; ret = [] }

unfoldable pub encode : Bytes → Bytes
unfolding encode_step encode_tail
encode bytes = encode_tail (foldl encode_step encode_start bytes)

-- The variables of `decode`'s loop: `i`, `char_array_4`, and what is stored in `decoded_string`,
-- whose length is `out_len`.
pub record Decoder : Type 0 where
  pub count : ℕ
  pub b0 : ℕ
  pub b1 : ℕ
  pub b2 : ℕ
  pub b3 : ℕ
  pub out : Bytes

-- A run of stores, or of the loop: it goes on, or `return -1` was met with these bytes stored.
pub data Outcome {ℓ} (A : Type ℓ) : Type ℓ where
  going : A → Outcome A
  overflow : Bytes → Outcome A

infixl 5 ◌>>=◌
abbrev pub ◌>>=◌ {ℓ κ} : {A : Type ℓ} {B : Type κ} → Outcome A → (A → Outcome B) → Outcome B
going a >>= f = f a
overflow out >>= f = overflow out

-- `decoded_string[out_len++] = c; if(out_len >= maxlen) return -1;` for each byte.
unfoldable pub store : ℕ → Bytes → Bytes → Outcome Bytes
store maxlen out [] = going out
store maxlen out (c ∷ cs) =
    let rest = store maxlen (out ++ c ∷ []) cs in
    if leb maxlen (length (out ++ c ∷ [])) then overflow (out ++ c ∷ []) else rest

-- `char_array_3`, from the values found.
unfoldable pub triple : ℕ → ℕ → ℕ → ℕ → Bytes
triple v0 v1 v2 v3 =
    (v0 * 4 + v1 / 16 % 4) % 256
    ∷ (v1 % 16 * 16 + v2 / 4 % 16) % 256
    ∷ (v2 % 4 * 64 + v3) % 256
    ∷ []

-- `char_array_4[i++] = encoded_string[in_]`
abbrev pub take_char : Decoder → ℕ → Decoder
take_char s c = record s {
  count = s.count + 1;
  b0 = if s.count == 0 then c else s.b0;
  b1 = if s.count == 1 then c else s.b1;
  b2 = if s.count == 2 then c else s.b2;
  b3 = if s.count == 3 then c else s.b3;
}

-- The `if (i == 4)` of the loop: `find` replaces the characters, and three bytes are stored.
unfoldable pub flush_quad : ℕ → Decoder → Outcome Decoder
flush_quad maxlen s = do
  out ← store maxlen s.out (triple (value_of s.b0) (value_of s.b1) (value_of s.b2) (value_of s.b3))
  going (record s {
    count = 0;
    b0 = value_of s.b0;
    b1 = value_of s.b1;
    b2 = value_of s.b2;
    b3 = value_of s.b3;
    out = out;
  })

unfoldable pub decode_step : ℕ → Decoder → ℕ → Outcome Decoder
decode_step maxlen s c =
    if (take_char s c).count == 4 then flush_quad maxlen (take_char s c) else going (take_char s c)

-- The `while`: it ends at the end of the text, at `=`, and at what is outside the alphabet.
unfoldable pub decode_loop : ℕ → Decoder → Bytes → Outcome Decoder
unfolding decode_step flush_quad store
decode_loop maxlen s [] = going s
decode_loop maxlen s (c ∷ cs) =
    let rest = decode_step maxlen s c >>= λ t. decode_loop maxlen t cs in
    if not (c == b'=') && is_base64 c then rest else going s

-- The `if (i)` behind the loop: unused characters are zeroed, `find` gives 255 for them, and
-- `i - 1` bytes are stored.
unfoldable pub decode_tail : ℕ → Decoder → Outcome Bytes
unfolding store
decode_tail maxlen s =
    if s.count == 0
    then going s.out
    else store maxlen s.out (
        take (s.count - 1) (
          triple (value_of s.b0) (value_of (if ltb 1 s.count then s.b1 else 0))
            (value_of (if ltb 2 s.count then s.b2 else 0))
            (value_of (if ltb 3 s.count then s.b3 else 0))))

-- The value returned (`none` is -1), and the bytes stored in the buffer, the final 0 included.
pub record Decoded : Type 0 where
  pub result : Option ℕ
  pub stored : Bytes

-- `decoded_string[out_len] = 0; return out_len;`
abbrev pub terminate : Outcome Bytes → Decoded
terminate (going out) = record { result = some (length out); stored = out ++ 0 ∷ [] }
terminate (overflow out) = record { result = none; stored = out }

abbrev pub decode_start : Decoder
decode_start = record { count = 0; b0 = 0; b1 = 0; b2 = 0; b3 = 0; out = [] }

unfoldable pub decode : Bytes → ℕ → Decoded
unfolding decode_loop decode_tail
decode text maxlen = terminate (decode_loop maxlen decode_start text >>= decode_tail maxlen)
