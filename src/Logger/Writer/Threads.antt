-- ===== src/Logger/Writer/Threads.antt =====
-- The lines of a thread and level are those of its own characters, however they are interleaved with
-- others.
use libudjat.Base.{
  ℕ, ◌≡◌, refl, sym, ap, subst, ◌∙◌, ◌⊎◌, inl, inr, Bool, true, false, ◌&&◌, Option, List, [], ◌∷◌,
  ◌++◌, append-nil, append_assoc, arith, ◌==◌, if◌then◌else◌, Bool-cases, Bytes,
}
use libudjat.Logger.Writer.{text_of, ends_line, kept, line_of, overflow, Buffer, Streams}
use libudjat.Logger.Writer.Buffers.{
  written_by, Distinct, overflow-Distinct, overflow_other, overflow_same,
}

-- A character that a thread puts out on a level.
pub record Put : Type 0 where
  pub thread : ℕ
  pub level : ℕ
  pub char : Option ℕ

unfoldable pub run : List Put → Streams → Streams
unfolding overflow
run [] s = s
run (p ∷ ps) s = run ps (overflow p.thread p.level p.char s)

abbrev pub is_by : ℕ → ℕ → Put → Bool
is_by thread level p = p.level == level && p.thread == thread

-- The characters of one thread and level.
abbrev pub chars_of : ℕ → ℕ → List Put → List (Option ℕ)
chars_of thread level [] = []
chars_of thread level (p ∷ ps) =
    let rest = chars_of thread level ps in if is_by thread level p then p.char ∷ rest else rest

-- The lines of a stream of characters by itself, behind the text `begun`.
abbrev pub lines_of : ℕ → ℕ → Bytes → List (Option ℕ) → List Buffer
lines_of thread level begun [] = []
lines_of thread level begun (c ∷ cs) =
    let more = lines_of thread level [] cs in
    let same = lines_of thread level (begun ++ kept c) cs in
    if ends_line c then line_of thread level begun ++ more else same

owner_of : (t l : ℕ) (p : Put) → is_by t l p ≡ true → (p.thread ≡ t) × (p.level ≡ l)
owner_of t l p h = (ground arith, ground arith)

run-lines :
    (t l : ℕ) (ps : List Put) (s : Streams)
    → Distinct s.buffers
    → written_by t l (run ps s).written
      ≡ written_by t l s.written ++ lines_of t l (text_of t l s.buffers) (chars_of t l ps)
unfolding run
run-lines t l [] s d = sym (append-nil (written_by t l s.written))
run-lines t l (p ∷ ps) s d =
    run-lines t l ps (overflow p.thread p.level p.char s)
      (overflow-Distinct p.thread p.level p.char s d)
    ∙ by_owner (Bool-cases (is_by t l p))
  where
    after : Streams
    after = overflow p.thread p.level p.char s

    Goal : Type 0
    Goal =
        written_by t l after.written ++ lines_of t l (text_of t l after.buffers) (chars_of t l ps)
        ≡ written_by t l s.written ++ lines_of t l (text_of t l s.buffers) (chars_of t l (p ∷ ps))

    Same : ℕ → ℕ → Type 0
    Same u m =
        (written_by u m after.written
          ≡ written_by u m s.written
            ++ (if ends_line p.char then line_of u m (text_of u m s.buffers) else []))
        × (text_of u m after.buffers
            ≡ (if ends_line p.char then [] else text_of u m s.buffers ++ kept p.char))

    moved : (p.thread ≡ t) × (p.level ≡ l) → Same t l
    moved (e, f) =
        subst (λ u. Same u l) e
          (subst (λ m. Same p.thread m) f (overflow_same p.thread p.level p.char s d))

    by_end :
        Same t l
        → (ends_line p.char ≡ true) ⊎ (ends_line p.char ≡ false)
        → is_by t l p ≡ true
        → Goal
    by_end (w, x) (inl ended) own =
        rw (own, w, x) (rw ended (append_assoc (written_by t l s.written) _ _))
    by_end (w, x) (inr going) own =
        rw (own, w, x)
          (rw going (
            ap (λ y. y ++ lines_of t l (text_of t l s.buffers ++ kept p.char) (chars_of t l ps))
              (append-nil (written_by t l s.written))))

    by_owner : (is_by t l p ≡ true) ⊎ (is_by t l p ≡ false) → Goal
    by_owner (inr other) =
        let o = overflow_other p.thread p.level t l p.char s other in rw (other, o.0, o.1) refl
    by_owner (inl own) = by_end (moved (owner_of t l p own)) (Bool-cases (ends_line p.char)) own

-- From the start, what the logger writes of a thread and level is the lines of the characters that
-- this thread put out on this level, in order, whatever other threads put out in between.
pub run-lines_of :
    (thread level : ℕ) (ps : List Put)
    → written_by thread level (run ps (record { buffers = []; written = [] })).written
      ≡ lines_of thread level [] (chars_of thread level ps)
run-lines_of thread level ps = run-lines thread level ps (record { buffers = []; written = [] }) tt
