-- ===== src/Retry/Pauses.antt =====
-- How long the loop of retry_util.h pauses.
use apf_ue4ss.Prelude.{
  ℕ, zero, suc, Bool, true, ◌&&◌, ◌≡◌, refl, Option, none, some, List, [], ◌∷◌, arith, Bool-cases,
  inl, inr,
}
use apf_ue4ss.Prelude.Int.{ℤ, pos, ltb_ℤ, leb_ℤ, ◌+ℤ◌}
use apf_ue4ss.Retry.{
  RetryPolicy, Attempt, returned, threw, threw_other, Ended, Stops, Effect, called, slept, Run,
  stop_requested, sleep_for, and_before, next_delay, pause, settle, backoff_loop,
  retry_with_backoff,
}

-- The pauses among the effects.
unfoldable pub delays : List Effect → List ℤ
delays [] = []
delays (called n ∷ effects) = delays effects
delays (slept d ∷ effects) = d ∷ delays effects

-- That no pause of a run is longer than `bound`.
unfoldable pub all_within : ℤ → List ℤ → Bool
all_within bound [] = true
all_within bound (d ∷ ds) = leb_ℤ d bound && all_within bound ds

unfoldable pub pauses_within : {R : Type 0} → ℤ → Run R → Bool
unfolding delays all_within
pauses_within bound none = true
pauses_within bound (some (r, effects)) = all_within bound (delays effects)

within-pause :
    {R : Type 0} (bound : ℤ) (a : ℕ) (d : ℤ) (run : Run R)
    → leb_ℤ d bound ≡ true
    → pauses_within bound run ≡ true
    → pauses_within bound (and_before (called a ∷ slept d ∷ []) run) ≡ true
unfolding pauses_within and_before delays all_within
within-pause bound a d none h k = refl
within-pause bound a d (some (r, effects)) h k = rw (h, k) refl

within-call :
    {R : Type 0} (bound : ℤ) (a : ℕ) (run : Run R)
    → pauses_within bound run ≡ true
    → pauses_within bound (and_before (called a ∷ []) run) ≡ true
unfolding pauses_within and_before delays
within-call bound a none k = refl
within-call bound a (some (r, effects)) k = k

module _ {D : Type 0} (scale : ℤ → D → ℤ) {T : Type 0} (func : ℕ → Attempt T)
    (policy : RetryPolicy D) where
  next_delay-max : (d : ℤ) → leb_ℤ (next_delay scale policy d) policy.max_delay_ms ≡ true
  unfolding next_delay
  next_delay-max d = ground arith

  pause-within :
      (token : Option Stops) (a : ℕ) (d : ℤ) (rest : Run (Ended T))
      → leb_ℤ d policy.max_delay_ms ≡ true
      → pauses_within policy.max_delay_ms rest ≡ true
      → pauses_within policy.max_delay_ms (pause scale func policy token a d rest) ≡ true
  unfolding pause pauses_within delays all_within
  pause-within token a d rest h k = elim (Bool-cases (leb_ℤ (pos a) policy.max_retries)) [
    | inl more ↦ elim (Bool-cases (sleep_for token a d)) [
      | inl woken ↦ rw (more, woken, h) refl
      | inr full ↦ rw (more, full) (within-pause policy.max_delay_ms a d rest h k)
    ]
    | inr last ↦ rw last (within-call policy.max_delay_ms a rest k)
  ]

  settle-within :
      (token : Option Stops) (a : ℕ) (d : ℤ) (o : Attempt T) (rest : Run (Ended T))
      → leb_ℤ d policy.max_delay_ms ≡ true
      → pauses_within policy.max_delay_ms rest ≡ true
      → pauses_within policy.max_delay_ms (settle scale func policy token a d o rest) ≡ true
  unfolding settle pauses_within delays all_within
  settle-within token a d (returned (some v)) rest h k = refl
  settle-within token a d (returned none) rest h k = pause-within token a d rest h k
  settle-within token a d threw_other rest h k = refl
  settle-within token a d (threw e) rest h k =
      elim (Bool-cases (ltb_ℤ policy.max_retries (pos a))) [
        | inl last ↦ rw last refl
        | inr more ↦ rw more (pause-within token a d rest h k)
      ]

  loop-within :
      (token : Option Stops) (fuel a : ℕ) (d : ℤ)
      → leb_ℤ d policy.max_delay_ms ≡ true
      → pauses_within policy.max_delay_ms (backoff_loop scale func policy token fuel a d) ≡ true
  unfolding backoff_loop pauses_within delays all_within
  loop-within token zero a d h = refl
  loop-within token (suc fuel) a d h =
      let next = next_delay scale policy d in
      elim (Bool-cases (leb_ℤ (pos a) (policy.max_retries +ℤ pos 1))) [
        | inr over ↦ rw over refl
        | inl more ↦ elim (Bool-cases (stop_requested token a)) [
          | inl stop ↦ rw (more, stop) refl
          | inr go ↦
              rw (more, go)
                (settle-within token a d (func a)
                  (backoff_loop scale func policy token fuel (suc a) next) h
                  (loop-within token fuel (suc a) next (next_delay-max d)))
        ]
      ]

  -- If the initial delay is at most `max_delay_ms`, so is every pause of `retry_with_backoff`,
  -- whatever the multiplier, the function, the stop token and the fuel.
  pub pauses-max :
      (token : Option Stops) (fuel : ℕ)
      → leb_ℤ policy.initial_delay_ms policy.max_delay_ms ≡ true
      → pauses_within policy.max_delay_ms (retry_with_backoff scale func policy token fuel) ≡ true
  unfolding retry_with_backoff
  pauses-max token fuel h = loop-within token fuel 1 policy.initial_delay_ms h
