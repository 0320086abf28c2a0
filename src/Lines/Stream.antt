-- ===== src/Lines/Stream.antt =====
-- The calls depend on the stream of bytes alone, not on how reads cut it.
use libudjat.Base.{
  ℕ, zero, suc, ◌+◌, ◌≤◌, ◌<◌, ◌≡◌, refl, sym, ap, ◌∙◌, inl, inr, true, false, none, some, List, [],
  ◌∷◌, ◌++◌, append-nil, append_assoc, arith, ◌==◌, if◌then◌else◌, ==→eq, Bool-cases, Bytes, length,
  take, length-append, All, IsText, c_str-IsText, IsText-append,
}
use libudjat.Lines.{
  cut_line, drop_return, parse_loop, parse, asked, on_readable, handle_event, new_handler, Call,
  Handler, input, bytes,
}

-- The lines of a stream: `part` is the line begun.
abbrev pub lines_of : Bytes → Bytes → List Call
lines_of part [] = []
lines_of part (c ∷ cs) =
    let more = lines_of [] cs in
    let same = lines_of (part ++ c ∷ []) cs in
    if c == b'\n' then input (drop_return part) ∷ more else same

-- The last line of a stream, that no newline ends.
abbrev pub open_line : Bytes → Bytes → Bytes
open_line part [] = part
open_line part (c ∷ cs) = open_line (if c == b'\n' then [] else part ++ c ∷ []) cs

abbrev HasNoNewline : Bytes → Type 0
HasNoNewline = All (λ c. (c == b'\n') ≡ false)

cut_line-none : (s : Bytes) → HasNoNewline s → cut_line s ≡ none
unfolding cut_line
cut_line-none [] h = refl
cut_line-none (c ∷ cs) h = rw (h.0, cut_line-none cs h.1)

cut_line-some : (s t : Bytes) → HasNoNewline s → cut_line (s ++ (b'\n' ∷ t)) ≡ some (s, t)
unfolding cut_line
cut_line-some [] t h = refl
cut_line-some (c ∷ cs) t h = rw (h.0, cut_line-some cs t h.1)

HasNoNewline-concat :
    (s : Bytes) (c : ℕ) → HasNoNewline s → (c == b'\n') ≡ false → HasNoNewline (s ++ c ∷ [])
HasNoNewline-concat [] c h k = (k, tt)
HasNoNewline-concat (x ∷ s) c h k = (h.0, HasNoNewline-concat s c h.1 k)

-- The loop of `parse` finds the lines of the text, with fuel for each of its characters.
parse_loop-lines :
    (cs part : Bytes) (fuel : ℕ)
    → HasNoNewline part
    → length part + length cs ≤ fuel
    → parse_loop fuel (part ++ cs) ≡ (lines_of part cs, open_line part cs)
unfolding parse_loop
parse_loop-lines [] part zero h fits = rw append-nil
parse_loop-lines [] part (suc fuel) h fits = rw append-nil (rw (cut_line-none part h, parse_loop))
parse_loop-lines (c ∷ cs) part zero h fits = absurd (omega arith)
parse_loop-lines (c ∷ cs) part (suc fuel) h fits = elim (Bool-cases (c == b'\n')) [
  | inl e ↦
      rw (e, ==→eq c b'\n' e, cut_line-some part cs h, parse_loop)
        (rw (parse_loop-lines cs [] fuel tt (omega arith)))
  | inr e ↦
      rw (e, ← append_assoc part (c ∷ []) cs)
        (parse_loop-lines cs (part ++ c ∷ []) (suc fuel) (HasNoNewline-concat part c h e)
          (omega (arith, length-append part (c ∷ []))))
]

-- What a handler holds between two events: no newline.
IsBetween : Handler → Type 0
IsBetween h = HasNoNewline h.buffer

parse-lines :
    (h : Handler) (cs : Bytes)
    → HasNoNewline h.buffer
    → parse (record h { buffer = h.buffer ++ cs })
      ≡ record h { buffer = open_line h.buffer cs; calls = h.calls ++ lines_of h.buffer cs }
unfolding parse
parse-lines h cs k = rw (
    parse_loop-lines cs h.buffer (length (h.buffer ++ cs)) k
      (omega (arith, length-append h.buffer cs)))

open_line-HasNoNewline : (cs part : Bytes) → HasNoNewline part → HasNoNewline (open_line part cs)
open_line-HasNoNewline [] part h = h
open_line-HasNoNewline (c ∷ cs) part h = elim (Bool-cases (c == b'\n')) [
  | inl e ↦ rw e (open_line-HasNoNewline cs [] tt)
  | inr e ↦ rw e (open_line-HasNoNewline cs (part ++ c ∷ []) (HasNoNewline-concat part c h e))
]

lines_of-append :
    (xs ys part : Bytes)
    → lines_of part (xs ++ ys) ≡ lines_of part xs ++ lines_of (open_line part xs) ys
lines_of-append [] ys part = refl
lines_of-append (c ∷ xs) ys part = elim (Bool-cases (c == b'\n')) [
  | inl e ↦ rw e (ap (◌∷◌ (input (drop_return part))) (lines_of-append xs ys []))
  | inr e ↦ rw e (lines_of-append xs ys (part ++ c ∷ []))
]

open_line-append :
    (xs ys part : Bytes) → open_line part (xs ++ ys) ≡ open_line (open_line part xs) ys
open_line-append [] ys part = refl
open_line-append (c ∷ xs) ys part =
    open_line-append xs ys (if c == b'\n' then [] else part ++ c ∷ [])

-- The bytes of a read that is not empty, and those of several reads.
abbrev pub read_of : ℕ × Bytes → Bytes
read_of (c, cs) = c ∷ cs

abbrev pub stream : List (ℕ × Bytes) → Bytes
stream [] = []
stream (r ∷ rs) = read_of r ++ stream rs

-- Readable events, one for each read.
abbrev pub feed : List (ℕ × Bytes) → Handler → Handler
feed [] h = h
feed ((c, cs) ∷ rs) h = feed rs (handle_event (some (bytes c cs)) false false h)

-- Each read finds room in the buffer, behind the line begun.
abbrev pub Fits : Bytes → List (ℕ × Bytes) → Type 0
Fits part [] = Unit
Fits part (r ∷ rs) = (length part + length (read_of r) < 256) × Fits (open_line part (read_of r)) rs

open_line-IsText : (cs part : Bytes) → IsText part → IsText cs → IsText (open_line part cs)
open_line-IsText [] part h k = h
open_line-IsText (c ∷ cs) part h k = elim (Bool-cases (c == b'\n')) [
  | inl e ↦ rw e (open_line-IsText cs [] tt k.1)
  | inr e ↦
      rw e (open_line-IsText cs (part ++ c ∷ []) (IsText-append part (c ∷ []) h (k.0, tt)) k.1)
]

IsText-append_cases : (xs ys : Bytes) → IsText (xs ++ ys) → IsText xs × IsText ys
IsText-append_cases [] ys h = (tt, h)
IsText-append_cases (x ∷ xs) ys h =
    let (left, right) = IsText-append_cases xs ys h.1 in ((h.0, left), right)

take_whole : (n : ℕ) (s : Bytes) → length s ≤ n → take n s ≡ s
take_whole zero [] h = refl
take_whole (suc n) [] h = refl
take_whole zero (c ∷ s) h = absurd (omega (arith, h))
take_whole (suc n) (c ∷ s) h = ap (λ t. c ∷ t) (take_whole n s (omega (arith, h)))

-- A read that finds room puts all its bytes behind the line begun.
on_readable-parse :
    (c : ℕ) (cs : Bytes) (h : Handler)
    → IsText h.buffer
    → IsText (c ∷ cs)
    → length h.buffer + length (c ∷ cs) < 256
    → on_readable (bytes c cs) h ≡ parse (record h { buffer = h.buffer ++ c ∷ cs })
unfolding on_readable
on_readable-parse c cs h t k f =
    rw
      (
        some_asked,
        take_whole (asked h) (c ∷ cs) (omega (arith, f)),
        c_str-IsText (h.buffer ++ c ∷ cs) (IsText-append h.buffer (c ∷ cs) t k),
      )
      refl
  where
    some_asked : (asked h == 0) ≡ false
    some_asked = ground (arith, f)

feed-stream :
    (rs : List (ℕ × Bytes)) (h : Handler)
    → HasNoNewline h.buffer
    → IsText h.buffer
    → IsText (stream rs)
    → Fits h.buffer rs
    → feed rs h ≡ record h {
      buffer = open_line h.buffer (stream rs);
      calls = h.calls ++ lines_of h.buffer (stream rs);
    }
unfolding handle_event
feed-stream [] h k t s f = λ i. record h { calls = sym (append-nil h.calls) i }
feed-stream ((c, cs) ∷ rs) h k t s f =
    let r : Bytes = c ∷ cs in
    let old = lines_of h.buffer r in
    let (now, later) = IsText-append_cases r (stream rs) s in
    rw (on_readable-parse c cs h t now f.0, parse-lines h r k)
      (feed-stream rs (record h { buffer = open_line h.buffer r; calls = h.calls ++ old })
          (open_line-HasNoNewline r h.buffer k) (open_line-IsText r h.buffer t now) later f.1
        ∙ (λ i. record h {
          buffer = sym (open_line-append r (stream rs) h.buffer) i;
          calls =
              (append_assoc h.calls old (lines_of (open_line h.buffer r) (stream rs))
                  ∙ ap (◌++◌ h.calls) (sym (lines_of-append r (stream rs) h.buffer)))
                i;
        }))

pub feed-lines :
    (rs : List (ℕ × Bytes))
    → IsText (stream rs)
    → Fits [] rs
    → feed rs new_handler ≡ record {
      is_open = true;
      buffer = open_line [] (stream rs);
      calls = lines_of [] (stream rs);
    }
feed-lines rs = feed-stream rs new_handler tt tt
