-- ===== src/FileText/Load.antt =====
-- The whole file is loaded.
use libudjat.Base.{
  ℕ, zero, suc, ◌+◌, ◌-◌, ◌≤◌, ◌<◌, ◌≡◌, refl, sym, ap, subst, ◌∙◌, inl, inr, true, false, [], ◌∷◌,
  ◌++◌, append-nil, append_assoc, arith, ◌==◌, Bool-cases, Bytes, length, take, drop, length-append,
  take-append-drop, length-drop, Result, ok,
}
use libudjat.FileText.{grown, min, load_loop, load, Device, LoadError}

-- The documentation of `read`, for a file that can be read: some bytes until the end.
pub record Reads (d : Device) : Type 0 where
  pub some_bytes : (i : ℕ) → 0 < d.gives i
  pub no_error : (i : ℕ) → d.fails i ≡ false

length-parts : (n : ℕ) (xs : Bytes) → length (take n xs) + length (drop n xs) ≡ length xs
length-parts n xs =
    omega (arith, length-append (take n xs) (drop n xs), ap length (take-append-drop n xs))

empty_of_length : (xs : Bytes) → length xs ≡ 0 → xs ≡ []
empty_of_length [] e = refl
empty_of_length (x ∷ xs) e = absurd (omega (arith, e))

grown-room : (size used : ℕ) → 20 < size → used ≤ size → used + 20 < grown size used
grown-room size used h k = ground arith

min-le : (a b : ℕ) → min a b ≤ a
min-le a b = ground arith

min-some : (a b : ℕ) → 0 < a → 0 < b → 0 < min a b
min-some a b h k = ground arith

length-chunk : (n : ℕ) (left : Bytes) → length (take n left) + (length left - n) ≡ length left
length-chunk n left = omega (arith, length-parts n left, length-drop n left)

abbrev Loads : Result LoadError (Bytes × ℕ) → Bytes → Type 0
Loads r file = (last : ℕ) × (r ≡ ok (file, last)) × (length file + 20 < last)

load_loop-whole :
    (d : Device) (fuel size : ℕ) (loaded left : Bytes)
    → Reads d
    → length loaded + 20 < size
    → length left < fuel
    → Loads (load_loop d fuel size loaded left) (loaded ++ left)
unfolding load_loop
load_loop-whole d zero size loaded left g room enough = absurd (omega (arith, enough))
load_loop-whole d (suc fuel) size loaded left g room enough =
    rw (g.no_error fuel) (elim (Bool-cases (length here == 0)) [
      | inl e ↦ rw e (
        size,
        ap (λ l. ok (l, size)) (sym (all_there e)),
        subst (λ l. length l + 20 < size) (sym (all_there e)) room,
      )
      | inr e ↦ rw e (
          subst
            (Loads (
              load_loop d fuel (grown size (length loaded + length here)) (loaded ++ here)
                (drop n left)))
            (append_assoc loaded here (drop n left)
              ∙ ap (λ l. loaded ++ l) (take-append-drop n left))
            (load_loop-whole d fuel (grown size (length loaded + length here)) (loaded ++ here)
              (drop n left) g (room_left) (fewer e)))
    ])
  where
    n : ℕ
    n = min (size - length loaded) (d.gives fuel)

    here : Bytes
    here = take n left

    positive : 0 < n
    positive =
        min-some (size - length loaded) (d.gives fuel) (omega (arith, room)) (g.some_bytes fuel)

    all_there : (length here == 0) ≡ true → loaded ++ left ≡ loaded
    all_there e =
        ap (λ l. loaded ++ l) (empty_of_length left (ground (arith, length-chunk n left, positive)))
        ∙ append-nil loaded

    fewer : (length here == 0) ≡ false → length (drop n left) < fuel
    fewer e = ground (arith, length-parts n left, enough)

    room_left : length (loaded ++ here) + 20 < grown size (length loaded + length here)
    room_left = rw (length-append loaded here) (
        grown-room size (length loaded + length here) (omega (arith, room))
          (omega (arith, room, min-le (size - length loaded) (d.gives fuel), length-chunk n left)))

-- When reads give some bytes until the end of the file, and none fails, the whole file is loaded,
-- however many bytes each read gives, and behind it the buffer has room for the 0 that ends the
-- text.
pub load-whole :
    (d : Device) (file : Bytes)
    → Reads d
    → (size : ℕ) × (load d (length file + 1) file ≡ ok (file, size)) × (length file < size)
unfolding load
load-whole d file g =
    let (size, e, room) =
      load_loop-whole d (length file + 1) 4096 [] file g (omega arith) (omega arith) in
    (size, e, omega (arith, room))
