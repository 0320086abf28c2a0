-- ===== src/Timer/Units/Laws.antt =====
-- An interval is read from its digits and its unit, and its description tells it exactly.
use libudjat.Base.{
  ℕ, ◌+◌, ◌-◌, ◌*◌, ◌^◌, ◌<◌, ◌≡◌, sym, ap, subst, ◌∙◌, ◌++◌, arith, ltb, if◌then◌else◌, Bytes,
  length, drop, drop-append,
}
use libudjat.Text.Units.AsUll.{decimal, AreDigits, NoDigitFirst, scan_digits-append}
use libudjat.Timer.Units.{
  atol, scaled, interval_of, to_string, Description, nothing, one_second, one_hour, one_minute,
  hours, minutes, seconds, milliseconds,
}

-- The milliseconds that a description tells.
abbrev pub told : Description → ℕ
told nothing = 0
told one_second = 1000
told one_hour = 3600000
told one_minute = 60000
told (hours n) = n * 3600000
told (minutes n) = n * 60000
told (seconds n) = n * 1000
told (milliseconds n) = n

-- The description of an interval tells the interval.
pub told-to_string : (interval : ℕ) → told (to_string interval) ≡ interval
unfolding to_string
told-to_string interval = ground arith

atol-append :
    (ds rest : Bytes)
    → AreDigits ds
    → NoDigitFirst rest
    → decimal 0 ds < 2 ^ 63
    → atol (ds ++ rest) ≡ decimal 0 ds
unfolding atol
atol-append ds rest digits other small =
    subst (λ r. (if ltb (2 ^ 63 - 1) r.0 then 2 ^ 63 - 1 else r.0) ≡ decimal 0 ds)
      (sym (scan_digits-append ds rest 0 0 digits other)) (fits (decimal 0 ds) small)
  where
    fits : (n : ℕ) → n < 2 ^ 63 → (if ltb (2 ^ 63 - 1) n then 2 ^ 63 - 1 else n) ≡ n
    fits n h = ground arith

-- Digits below 2 ^ 63, and a text behind them that begins with no digit: the interval is the
-- number in the unit that the text is, or in seconds if it is empty.
pub interval_of-append :
    (ds rest : Bytes)
    → AreDigits ds
    → NoDigitFirst rest
    → decimal 0 ds < 2 ^ 63
    → interval_of (ds ++ rest) ≡ scaled rest (decimal 0 ds)
unfolding interval_of
interval_of-append ds rest digits other small =
    ap (λ r. scaled (drop r.1 (ds ++ rest)) (atol (ds ++ rest)))
      (scan_digits-append ds rest 0 0 digits other)
    ∙ ap (λ n. scaled (drop n (ds ++ rest)) (atol (ds ++ rest))) (zero_plus (length ds))
    ∙ ap (λ r. scaled r (atol (ds ++ rest))) (drop-append ds rest)
    ∙ ap (scaled rest) (atol-append ds rest digits other small)
  where
    zero_plus : (n : ℕ) → 0 + n ≡ n
    zero_plus n = omega arith
