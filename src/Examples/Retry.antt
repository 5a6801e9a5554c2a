-- ===== src/Examples/Retry.antt =====
-- A function that fails twice, and one that throws for ever.
use apf_ue4ss.Prelude.{
  ℕ, ◌*◌, ◌==◌, String, true, false, ◌≡◌, refl, none, some, if◌then◌else◌, arith,
}
use apf_ue4ss.Prelude.Int.{ℤ, pos, ◌+ℤ◌}
use apf_ue4ss.Retry.{RetryPolicy, Attempt, returned, threw, Stops, retry_with_backoff}
use apf_ue4ss.Retry.Laws.{
  rounds, ends_within, found, first_success, outcome, retry_with_backoff-ends, retry-first_success,
}

-- A multiplier that is a whole number.
abbrev times : ℤ → ℕ → ℤ
times (pos d) k = pos (d * k)
times d k = d

abbrev policy : RetryPolicy ℕ
policy = record {
  max_retries = pos 3;
  initial_delay_ms = pos 1000;
  backoff_multiplier = 2;
  max_delay_ms = pos 3000;
}

abbrev third : ℕ → Attempt String
third n = if n == 3 then returned (some "pipe") else if n == 2 then threw "busy" else returned none

abbrev never : ℕ → Attempt String
never n = threw "refused"

abbrev late_stop : Stops
late_stop = record { requested = λ n. n == 4; wakes = λ n d. false }

retry_with_backoff-ends_example :
    ends_within (rounds policy) (retry_with_backoff times never policy (some late_stop) 5) ≡ true
unfolding rounds ◌+ℤ◌
retry_with_backoff-ends_example =
    retry_with_backoff-ends times never policy (some late_stop) 5 (omega arith)

retry-first_success_example :
    outcome (retry_with_backoff times third policy none 5)
    ≡ some (first_success third (rounds policy) 1)
unfolding rounds ◌+ℤ◌
retry-first_success_example = retry-first_success times third policy 5 (omega arith)

-- The third attempt.
third_test : first_success third 4 1 ≡ found "pipe" (pos 3)
unfolding first_success
third_test = refl
