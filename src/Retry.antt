-- ===== src/Retry.antt =====
-- APFrameworkCore/include/retry_util.h. The function that is retried is what it does at each
-- attempt; the effects of a call come back as a list. `D` is the type double, and `scale` is
-- `static_cast<int>(delay_ms * backoff_multiplier)`.
pub mod Laws
pub mod Pauses
pub mod Simple
use apf_ue4ss.Prelude.{
  ℕ, zero, suc, String, Bool, true, false, Option, none, some, List, [], ◌∷◌, ◌++◌, if◌then◌else◌,
}
use apf_ue4ss.Prelude.Int.{ℤ, pos, ltb_ℤ, leb_ℤ, ◌+ℤ◌}
use apf_ue4ss.Prelude.Text.{is_empty}

pub record RetryConfig (D : Type 0) : Type 0 where
  pub max_retries : ℤ
  pub initial_delay_ms : ℤ
  pub backoff_multiplier : D
  pub max_delay_ms : ℤ

pub record RetryPolicy (D : Type 0) : Type 0 where
  pub max_retries : ℤ
  pub initial_delay_ms : ℤ
  pub backoff_multiplier : D
  pub max_delay_ms : ℤ

unfoldable pub from_config : {D : Type 0} → RetryConfig D → RetryPolicy D
from_config config = record {
  max_retries = config.max_retries;
  initial_delay_ms = config.initial_delay_ms;
  backoff_multiplier = config.backoff_multiplier;
  max_delay_ms = config.max_delay_ms;
}

-- `RetryResult<T>`; `RetryResult<void>` is that of `Bool`, without a value of interest.
pub record RetryResult (T : Type 0) : Type 0 where
  pub success : Bool
  pub value : Option T
  pub attempts : ℤ
  pub last_error : String

unfoldable pub ok : {T : Type 0} → T → ℤ → RetryResult T
ok v attempts = record { success = true; value = some v; attempts = attempts; last_error = "" }

unfoldable pub fail : {T : Type 0} → String → ℤ → RetryResult T
fail message attempts = record {
  success = false;
  value = none;
  attempts = attempts;
  last_error = message;
}

-- How one call of the function ends: with a value (or none), with a std::exception and its text, or
-- with another exception, which only `simple_retry` catches.
pub data Attempt (T : Type 0) : Type 0 where
  returned : Option T → Attempt T
  threw : String → Attempt T
  threw_other : Attempt T

-- How a call of `retry_with_backoff` ends: with a result, or with an exception of the function.
pub data Ended (T : Type 0) : Type 0 where
  gives : RetryResult T → Ended T
  leaves : Ended T

-- `StopToken`: what `stop_requested` answers before an attempt, and whether the `sleep_for` after
-- an attempt wakes early.
pub record Stops : Type 0 where
  pub requested : ℕ → Bool
  pub wakes : ℕ → ℤ → Bool

pub data Effect : Type 0 where
  called : ℕ → Effect
  slept : ℤ → Effect

unfoldable pub stop_requested : Option Stops → ℕ → Bool
stop_requested none attempt = false
stop_requested (some token) attempt = token.requested attempt

unfoldable pub sleep_for : Option Stops → ℕ → ℤ → Bool
sleep_for none attempt delay = false
sleep_for (some token) attempt delay = token.wakes attempt delay

-- What a call gives: its result and its effects, in order; `none` is a loop that is still running
-- when its fuel is spent.
abbrev pub Run : Type 0 → Type 0
Run R = Option (R × List Effect)

unfoldable pub and_before : {R : Type 0} → List Effect → Run R → Run R
and_before effects none = none
and_before effects (some (r, more)) = some (r, effects ++ more)

module _ {D : Type 0} (scale : ℤ → D → ℤ) where
  unfoldable pub next_delay : RetryPolicy D → ℤ → ℤ
  next_delay policy delay_ms =
      let scaled = scale delay_ms policy.backoff_multiplier in
      if ltb_ℤ policy.max_delay_ms scaled then policy.max_delay_ms else scaled

  module _ {T : Type 0} (func : ℕ → Attempt T) (policy : RetryPolicy D) (token : Option Stops) where
    -- The pause after a failed attempt; `rest` is the loop from the next attempt on.
    unfoldable pub pause : ℕ → ℤ → Run (Ended T) → Run (Ended T)
    unfolding sleep_for and_before fail
    pause attempt delay_ms rest =
        if leb_ℤ (pos attempt) policy.max_retries
        then if sleep_for token attempt delay_ms
          then some (
            gives (fail "Stop requested during backoff" (pos attempt)),
            called attempt ∷ slept delay_ms ∷ [],
          )
          else and_before (called attempt ∷ slept delay_ms ∷ []) rest
        else and_before (called attempt ∷ []) rest

    -- The rest of a round after the call: its return, its catch and the pause.
    unfoldable pub settle : ℕ → ℤ → Attempt T → Run (Ended T) → Run (Ended T)
    unfolding pause ok fail
    settle attempt delay_ms (returned (some v)) rest =
        some (gives (ok v (pos attempt)), called attempt ∷ [])
    settle attempt delay_ms (returned none) rest = pause attempt delay_ms rest
    settle attempt delay_ms (threw e) rest =
        if ltb_ℤ policy.max_retries (pos attempt)
        then some (gives (fail e (pos attempt)), called attempt ∷ [])
        else pause attempt delay_ms rest
    settle attempt delay_ms threw_other rest = some (leaves, called attempt ∷ [])

    -- `for (attempt = 1; attempt <= max_retries + 1; ++attempt)` of `retry_with_backoff`.
    unfoldable pub backoff_loop : ℕ → ℕ → ℤ → Run (Ended T)
    unfolding stop_requested settle next_delay fail
    backoff_loop zero attempt delay_ms = none
    backoff_loop (suc fuel) attempt delay_ms =
        let rest = backoff_loop fuel (suc attempt) (next_delay policy delay_ms) in
        if leb_ℤ (pos attempt) (policy.max_retries +ℤ pos 1)
        then if stop_requested token attempt
          then some (gives (fail "Stop requested" (pos attempt)), [])
          else settle attempt delay_ms (func attempt) rest
        else some (gives (fail "Max retries exceeded" (policy.max_retries +ℤ pos 1)), [])

    unfoldable pub retry_with_backoff : ℕ → Run (Ended T)
    unfolding backoff_loop
    retry_with_backoff fuel = backoff_loop fuel 1 policy.initial_delay_ms

    -- `last_error` after an attempt.
    unfoldable pub remember : Attempt T → String → String
    remember (returned v) last_error = last_error
    remember (threw e) last_error = e
    remember threw_other last_error = last_error

    -- The loop of `retry_with_backoff_value`, which remembers the last exception.
    unfoldable pub value_loop : ℕ → ℕ → ℤ → String → Run (Ended T)
    unfolding stop_requested settle next_delay fail remember
    value_loop zero attempt delay_ms last_error = none
    value_loop (suc fuel) attempt delay_ms last_error =
        let rest =
          value_loop fuel (suc attempt) (next_delay policy delay_ms)
            (remember (func attempt) last_error) in
        if leb_ℤ (pos attempt) (policy.max_retries +ℤ pos 1)
        then if stop_requested token attempt
          then some (gives (fail "Stop requested" (pos attempt)), [])
          else settle attempt delay_ms (func attempt) rest
        else some (
          gives (
              fail (if is_empty last_error then "Max retries exceeded" else last_error)
                (policy.max_retries +ℤ pos 1)),
          [],
        )

    unfoldable pub retry_with_backoff_value : ℕ → Run (Ended T)
    unfolding value_loop
    retry_with_backoff_value fuel = value_loop fuel 1 policy.initial_delay_ms ""

-- Whether a call returned true: a thrown exception is ignored.
unfoldable pub succeeds : {T : Type 0} → Attempt T → Bool
succeeds (returned (some v)) = true
succeeds (returned none) = false
succeeds (threw e) = false
succeeds threw_other = false

-- `simple_retry`: the loop counts from 0, and an exception is a failed attempt.
module _ {T : Type 0} (func : ℕ → Attempt T) (max_attempts delay_ms : ℤ)
    (token : Option Stops) where
  unfoldable pub simple_loop : ℕ → ℕ → Run Bool
  unfolding stop_requested sleep_for and_before succeeds
  simple_loop zero i = none
  simple_loop (suc fuel) i =
      let rest = simple_loop fuel (suc i) in
      if ltb_ℤ (pos i) max_attempts
      then if stop_requested token i
        then some (false, [])
        else if succeeds (func i)
        then some (true, called i ∷ [])
        else if ltb_ℤ (pos (suc i)) max_attempts
        then if sleep_for token i delay_ms
          then some (false, called i ∷ slept delay_ms ∷ [])
          else and_before (called i ∷ slept delay_ms ∷ []) rest
        else and_before (called i ∷ []) rest
      else some (false, [])

  unfoldable pub simple_retry : ℕ → Run Bool
  unfolding simple_loop
  simple_retry fuel = simple_loop fuel 0
