-- ===== src/Timer/Examples.antt =====
-- Tests of Timer.
use libudjat.Base.{
  ℕ, ◌+◌, ◌≤◌, ◌<◌, ◌≡◌, refl, false, [], ◌∷◌, arith, ◌==◌, if◌then◌else◌, codes, Among, err,
}
use libudjat.Timer.{
  remove, disable, activate, expired, next_of, run_expired, compute_poll_timeout, Loop,
  invalid_unit,
}
use libudjat.Timer.Poll.{compute_poll_timeout-bound, IsSound}
use libudjat.Timer.Units.{factor_of, scaled, interval_of}

-- Timer 1 is due at 1000 and has an interval of 500; timer 2 is due at 2000; timer 3 is due, once.
abbrev loop : Loop
loop = record {
  interval = λ x. if x == 1 then 500 else if x == 2 then 800 else 0;
  activation_time = λ x. if x == 1 then 1000 else if x == 2 then 2000 else 900;
  enabled = 1 ∷ 2 ∷ 3 ∷ [];
}

abbrev poll : ℕ × Loop
poll = compute_poll_timeout 1000 60000 (λ x. 1010) (λ x. false) loop

poll-wait : poll.0 ≡ 510
unfolding compute_poll_timeout expired next_of run_expired activate
poll-wait = refl

poll-enabled : poll.1.enabled ≡ 1 ∷ 2 ∷ []
unfolding compute_poll_timeout expired next_of run_expired activate disable remove
poll-enabled = refl

interval-minutes : interval_of (codes "15 Min") ≡ err invalid_unit
unfolding interval_of scaled factor_of
interval-minutes = refl

loop-IsSound : IsSound 1000 60000 (λ x. 1010) loop
loop-IsSound = record {
  waits = omega arith;
  wait_fits = omega arith;
  later = λ x. omega arith;
  times_fit = λ x. ground arith;
}

compute_poll_timeout-bound_example :
    (0 < poll.0)
    × (poll.0 ≤ 60000)
    × ((y : ℕ) → Among y poll.1.enabled → 1000 + poll.0 ≤ poll.1.activation_time y)
compute_poll_timeout-bound_example =
    compute_poll_timeout-bound 1000 60000 (λ x. 1010) (λ x. false) loop loop-IsSound
