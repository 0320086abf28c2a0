-- ===== src/HttpTime/Examples.antt =====
-- Tests and examples of the times of HTTP.
use libudjat.Base.{ℕ, ◌%◌, ◌≡◌, refl, arith, codes, is_digit, is_space, err, ok}
use libudjat.Value.Text.{digits, number_text}
use libudjat.Text.Strip.{chug}
use libudjat.Text.Units.{scan_digits}
use libudjat.HttpTime.{
  two_digits, tm_text, to_string, skip_to_digit, scan_int, up_to, scan_word, scan_fields, set, Tm,
  unexpected_timestamp,
}
use libudjat.HttpTime.RoundTrip.{set-to_string}

-- The first minute of 1970.
abbrev minute_of : ℕ → ℕ × Tm
minute_of v = (4, record { mday = 1; mon = 0; year = 1970; hour = 0; minute = 0; second = v % 60 })

abbrev second_of : Tm → ℕ
second_of tm = tm.second

to_string-five : to_string minute_of 5 ≡ codes "Thu, 01 Jan 1970 00:00:05 GMT"
unfolding to_string tm_text two_digits number_text digits
to_string-five = refl

set-word : set second_of (codes "1 January") ≡ err unexpected_timestamp
unfolding set skip_to_digit is_digit scan_fields scan_int scan_word chug is_space scan_digits up_to
set-word = refl

set-to_string_example : set second_of (to_string minute_of 5) ≡ ok 5
set-to_string_example =
    set-to_string minute_of second_of 5 (omega arith) (omega arith)
      (record {
        mon = omega arith;
        mday = omega arith;
        year = omega arith;
        hour = omega arith;
        minute = omega arith;
        second = omega arith;
      })
      refl
