-- ===== src/Escape/RoundTrip.antt =====
-- `unescape` after `escape`, and where the two do not fit.
use libudjat.Base.{
  ℕ, zero, suc, ◌+◌, ◌*◌, ◌≤◌, ◌<◌, ◌≡◌, refl, ap, ◌∙◌, inl, inr, Bool, true, false, not, ◌&&◌,
  ◌||◌, [], ◌∷◌, ◌++◌, append-nil, append_assoc, arith, ltb, ◌==◌, ==_refl, Bool-cases,
  passes_below, passes_below_at, Bytes, codes, length, get_or, take, length-append, All, bytes_eq,
  c_str, IsText, c_str-IsText, length-c_str, IsText-append, bytes_eq_sound, is_alnum, ◌>>=◌, Result,
  err, ok,
}
use libudjat.Escape.{
  unescape_character, hex_text, widen, hex_of, escape_char, escape_loop, escape, unescape_loop,
  unescape, Error,
}

abbrev reads : Result Error ℕ → ℕ → Bool
reads (ok d) c = d == c
reads (err e) c = false

reads-eq : (r : Result Error ℕ) (c : ℕ) → reads r c ≡ true → r ≡ ok c
reads-eq (ok d) c h = ground arith
reads-eq (err e) c h = cc

abbrev digit : ℕ → ℕ → ℕ
digit c n = get_or (hex_of c) n 0

-- The two hexadecimal digits of a character below 128 are read back, and are no 0.
is_read_back : ℕ → Bool
is_read_back c =
    bytes_eq (hex_of c) (digit c 0 ∷ digit c 1 ∷ [])
    && (reads (unescape_character (digit c 0) (digit c 1)) c
        && (ltb 0 (digit c 0) && ltb 0 (digit c 1)))

hex_table : passes_below is_read_back 128 ≡ true
unfolding passes_below is_read_back hex_of bytes_eq unescape_character
hex_table = refl

record Digits (c : ℕ) : Type 0 where
  two : hex_of c ≡ digit c 0 ∷ digit c 1 ∷ []
  read : unescape_character (digit c 0) (digit c 1) ≡ ok c
  positive : (0 < digit c 0) × (0 < digit c 1)

is_read_back-Digits : (c : ℕ) → is_read_back c ≡ true → Digits c
unfolding is_read_back
is_read_back-Digits c h = record {
  two = bytes_eq_sound (hex_of c) _ (ground arith);
  read = reads-eq _ c (ground arith);
  positive = ground arith;
}

hex_of-Digits : (c : ℕ) → c < 128 → Digits c
hex_of-Digits c h = is_read_back-Digits c (passes_below_at is_read_back 128 c hex_table h)

-- The output of `escape`, with no buffer.
abbrev pub escaped : ℕ → Bytes → Bytes
escaped marker [] = []
escaped marker (c ∷ cs) = escape_char marker c ++ escaped marker cs

length-hex_text : (n w : ℕ) (begun : Bool) → length (hex_text n w begun) ≤ n
length-hex_text zero w begun = omega arith
length-hex_text (suc n) w begun =
    ground (arith, length-hex_text n w true, length-hex_text n w false)

length-take : (n : ℕ) (xs : Bytes) → length (take n xs) ≤ n
length-take zero xs = omega arith
length-take (suc n) [] = omega arith
length-take (suc n) (x ∷ xs) = omega (arith, length-take n xs)

length-escape_char : (marker c : ℕ) → length (escape_char marker c) ≤ 3
unfolding escape_char hex_of
length-escape_char marker c = ground (arith, length-take 2 (hex_text 8 (widen c) false))

-- The buffer is never found too small.
escape_loop-escaped :
    (maxlen marker : ℕ) (dst src : Bytes)
    → length dst + 4 * length src ≤ maxlen
    → escape_loop maxlen marker dst src ≡ ok (dst ++ escaped marker src)
unfolding escape_loop
escape_loop-escaped maxlen marker dst [] h = rw append-nil
escape_loop-escaped maxlen marker dst (c ∷ cs) h = ground (
  arith,
  length-append dst (escape_char marker c),
  length-escape_char marker c,
  escape_loop-escaped maxlen marker (dst ++ escape_char marker c) cs,
  append_assoc dst (escape_char marker c) (escaped marker cs),
)

-- `escape` never throws: its buffer of four times the text is large enough, for every text.
pub escape-total :
    (marker : ℕ) (s : Bytes) → escape marker s ≡ ok (c_str (escaped marker (c_str s)))
unfolding escape
escape-total marker s =
    rw (escape_loop-escaped (length s * 4) marker [] (c_str s) (omega (arith, length-c_str s)))

module _ (marker : ℕ) (m : 0 < marker) where
  escape_char-IsText : (c : ℕ) → (0 < c) × (c < 128) → IsText (escape_char marker c)
  unfolding escape_char
  escape_char-IsText c h = elim (Bool-cases (is_alnum c && not (c == marker))) [
    | inl e ↦ rw e (h.0, tt)
    | inr e ↦ let d = hex_of-Digits c h.1 in rw (e, d.two) (m, (d.positive.0, (d.positive.1, tt)))
  ]

  escaped-IsText : (s : Bytes) → All (λ c. (0 < c) × (c < 128)) s → IsText (escaped marker s)
  escaped-IsText [] h = tt
  escaped-IsText (c ∷ cs) h =
      IsText-append (escape_char marker c) (escaped marker cs) (escape_char-IsText c h.0)
        (escaped-IsText cs h.1)

  unescape_loop_plain :
      (c : ℕ) (dst rest : Bytes)
      → (c == marker) ≡ false
      → unescape_loop marker dst (c ∷ rest) ≡ unescape_loop marker (dst ++ c ∷ []) rest
  unfolding unescape_loop
  unescape_loop_plain c dst [] h = rw h
  unescape_loop_plain c dst (a ∷ []) h = rw h
  unescape_loop_plain c dst (a ∷ b ∷ rest) h = rw h

  unescape_loop_coded :
      (a b c : ℕ) (dst rest : Bytes)
      → unescape_character a b ≡ ok c
      → unescape_loop marker dst (marker ∷ a ∷ b ∷ rest) ≡ unescape_loop marker (dst ++ c ∷ []) rest
  unfolding unescape_loop
  unescape_loop_coded a b c dst rest h = rw (==_refl marker, h)

  -- What `escape` writes for one character is read as that character.
  unescape_loop-escape_char :
      (c : ℕ) (dst rest : Bytes)
      → c < 128
      → unescape_loop marker dst (escape_char marker c ++ rest)
        ≡ unescape_loop marker (dst ++ c ∷ []) rest
  unfolding escape_char
  unescape_loop-escape_char c dst rest h = elim (Bool-cases (is_alnum c && not (c == marker))) [
    | inl e ↦ rw e (unescape_loop_plain c dst rest (ground arith))
    | inr e ↦ let d = hex_of-Digits c h in rw (e, d.two) (unescape_loop_coded _ _ c dst rest d.read)
  ]

  unescape_loop-escaped :
      (s dst : Bytes)
      → All (λ c. (0 < c) × (c < 128)) s
      → unescape_loop marker dst (escaped marker s) ≡ ok (dst ++ s)
  unfolding unescape_loop
  unescape_loop-escaped [] dst h = rw append-nil
  unescape_loop-escaped (c ∷ cs) dst h =
      unescape_loop-escape_char c dst (escaped marker cs) h.0.1
      ∙ unescape_loop-escaped cs (dst ++ c ∷ []) h.1
      ∙ ap ok (append_assoc dst (c ∷ []) cs)

abbrev pub IsAscii : Bytes → Type 0
IsAscii = All (λ c. (0 < c) × (c < 128))

IsAscii-IsText : (s : Bytes) → IsAscii s → IsText s
IsAscii-IsText [] h = tt
IsAscii-IsText (c ∷ cs) h = (h.0.0, IsAscii-IsText cs h.1)

-- `unescape` undoes `escape` with the same marker, on every ASCII text; the marker is any
-- character but 0, a letter or a digit too.
pub unescape-escape :
    (marker : ℕ) (s : Bytes) → 0 < marker → IsAscii s → (escape marker s >>= unescape marker) ≡ ok s
unfolding unescape
unescape-escape marker s m h = rw (
  escape-total marker s,
  c_str-IsText s (IsAscii-IsText s h),
  c_str-IsText (escaped marker s) (escaped-IsText marker m s h),
  c_str-IsText (escaped marker s) (escaped-IsText marker m s h),
  unescape_loop-escaped marker m s [] h,
  c_str-IsText s (IsAscii-IsText s h),
)

hex_high : passes_below (λ c. ltb c 128 || bytes_eq (hex_of c) (codes "FF")) 256 ≡ true
unfolding passes_below hex_of bytes_eq
hex_high = refl

alnum_high : passes_below (λ c. ltb c 128 || not (is_alnum c)) 256 ≡ true
unfolding passes_below is_alnum
alnum_high = refl

-- A character from 128 on is widened with its sign, and `escape` writes `FF` for all of them.
escape_char_high : (marker c : ℕ) → c < 256 → 128 ≤ c → escape_char marker c ≡ marker ∷ codes "FF"
unfolding escape_char
escape_char_high marker c h k = ground (
  arith,
  passes_below_at _ 256 c hex_high h,
  passes_below_at _ 256 c alnum_high h,
  bytes_eq_sound (hex_of c) (codes "FF"),
)

-- So texts that differ in a character from 128 on have the same escaped text: `escape` loses it.
pub escape_high_collides :
    (marker c d : ℕ) (rest : Bytes)
    → (128 ≤ c) × (c < 256)
    → (128 ≤ d) × (d < 256)
    → escape marker (c ∷ rest) ≡ escape marker (d ∷ rest)
unfolding c_str
escape_high_collides marker c d rest h k = ground (
  arith,
  escape-total marker (c ∷ rest),
  escape-total marker (d ∷ rest),
  escape_char_high marker c h.1,
  escape_char_high marker d k.1,
)
