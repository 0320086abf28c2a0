-- ===== src/Escape.antt =====
-- src/library/tools/url/unescape.cc: `String::escape` and `String::unescape`. A char is a byte
-- below 256; from 128 on it is negative, which shows where it becomes an unsigned int.
pub mod RoundTrip
mod Examples
use libudjat.Base.{
  ℕ, zero, suc, ◌+◌, ◌-◌, ◌*◌, ◌/◌, ◌%◌, ◌^◌, Bool, true, false, not, ◌&&◌, ◌||◌, [], ◌∷◌, ◌++◌,
  ltb, leb, ◌==◌, if◌then◌else◌, Bytes, length, take, c_str, within, is_alnum, ◌>>=◌, Result, err,
  ok,
}

pub data Error : Type 0 where
  invalid_digit unexpected_sequence bigger_than_expected : Error

-- `xdigit_value`
unfoldable pub xdigit_value : ℕ → Result Error ℕ
xdigit_value c =
    if within b'0' b'9' c
    then ok (c - b'0')
    else if within b'A' b'F' c
    then ok (10 + (c - b'A'))
    else if within b'a' b'f' c
    then ok (10 + (c - b'a'))
    else err invalid_digit

-- `unescape_character`: both digits are below 16, so the `|` is a sum.
unfoldable pub unescape_character : ℕ → ℕ → Result Error ℕ
unfolding xdigit_value
unescape_character a b = do
  first ← xdigit_value a
  second ← xdigit_value b
  ok (first * 16 + second)

-- An upper case hexadecimal digit.
abbrev pub hex_digit : ℕ → ℕ
hex_digit d = if ltb d 10 then b'0' + d else b'A' + (d - 10)

-- The digits of a 32-bit word from place `n` down, with no leading zeros but for the last two.
abbrev pub hex_text : ℕ → ℕ → Bool → Bytes
hex_text zero w begun = []
hex_text (suc n) w begun =
    let d = w / 16 ^ n % 16 in
    if begun || (not (d == 0) || ltb n 2)
    then hex_digit d ∷ hex_text n w true
    else hex_text n w false

-- `(unsigned int) c` for a signed char.
abbrev pub widen : ℕ → ℕ
widen c = if ltb c 128 then c else 2 ^ 32 - 256 + c

-- `snprintf(hexvalue,3,"%02X",(unsigned int) c)`, which leaves two characters.
unfoldable pub hex_of : ℕ → Bytes
hex_of c = take 2 (hex_text 8 (widen c) false)

-- What `escape` writes for one character.
unfoldable pub escape_char : ℕ → ℕ → Bytes
unfolding is_alnum
escape_char marker c = if is_alnum c && not (c == marker) then c ∷ [] else marker ∷ hex_of c

-- The `while` of `escape`; `index` is the length of what stands in `dst`.
unfoldable pub escape_loop : ℕ → ℕ → Bytes → Bytes → Result Error Bytes
escape_loop maxlen marker dst [] = ok dst
escape_loop maxlen marker dst (c ∷ cs) =
    let rest = escape_loop maxlen marker (dst ++ escape_char marker c) cs in
    if leb maxlen (length dst) then err bigger_than_expected else rest

unfoldable pub escape : ℕ → Bytes → Result Error Bytes
unfolding escape_loop escape_char hex_of c_str
escape marker s = do dst ← escape_loop (length s * 4) marker [] (c_str s); ok (c_str dst)

-- The `while` of `unescape`: a marker wants two characters behind it.
unfoldable pub unescape_loop : ℕ → Bytes → Bytes → Result Error Bytes
unfolding unescape_character
unescape_loop marker dst [] = ok dst
unescape_loop marker dst (c ∷ []) =
    if c == marker then err unexpected_sequence else ok (dst ++ c ∷ [])
unescape_loop marker dst (c ∷ a ∷ []) =
    let plain = unescape_loop marker (dst ++ c ∷ []) (a ∷ []) in
    if c == marker then err unexpected_sequence else plain
unescape_loop marker dst (c ∷ a ∷ b ∷ rest) =
    let plain = unescape_loop marker (dst ++ c ∷ []) (a ∷ b ∷ rest) in
    let coded = unescape_character a b >>= λ d. unescape_loop marker (dst ++ d ∷ []) rest in
    if c == marker then coded else plain

unfoldable pub unescape : ℕ → Bytes → Result Error Bytes
unfolding unescape_loop c_str
unescape marker s = do dst ← unescape_loop marker [] (c_str s); ok (c_str dst)
