-- ===== src/Retry/Simple.antt =====
-- What `simple_retry` of retry_util.h answers.
use apf_ue4ss.Prelude.{
  ℕ, zero, suc, ◌+◌, ◌<◌, Bool, true, false, ◌≡◌, refl, Option, none, some, List, [], ◌∷◌,
  if◌then◌else◌, arith, Bool-cases, inl, inr,
}
use apf_ue4ss.Prelude.Int.{ℤ, pos, ltb_ℤ, pos_part}
use apf_ue4ss.Retry.{
  Attempt, Effect, called, slept, Run, stop_requested, sleep_for, and_before, succeeds, simple_loop,
  simple_retry,
}

-- Whether one of the `n` calls from `i` on gives a value.
unfoldable pub any_success : {T : Type 0} → (ℕ → Attempt T) → ℕ → ℕ → Bool
unfolding succeeds
any_success func zero i = false
any_success func (suc n) i = if succeeds (func i) then true else any_success func n (suc i)

-- The answer of an ended run.
unfoldable pub answer : Run Bool → Option Bool
answer none = none
answer (some (b, effects)) = some b

answer-before :
    (effects : List Effect) (run : Run Bool) → answer (and_before effects run) ≡ answer run
unfolding answer and_before
answer-before effects none = refl
answer-before effects (some (b, more)) = refl

below : (m : ℤ) (i n : ℕ) → suc n + i ≡ pos_part m → ltb_ℤ (pos i) m ≡ true
below m i n h = ground arith

above : (m : ℤ) (i : ℕ) → i ≡ pos_part m → ltb_ℤ (pos i) m ≡ false
above m i h = ground arith

module _ {T : Type 0} (func : ℕ → Attempt T) (max_attempts delay_ms : ℤ) where
  loop-answer :
      (fuel n i : ℕ)
      → n < fuel
      → n + i ≡ pos_part max_attempts
      → answer (simple_loop func max_attempts delay_ms none fuel i) ≡ some (any_success func n i)
  unfolding simple_loop answer any_success stop_requested sleep_for
  loop-answer zero n i h k = absurd (omega (arith, h))
  loop-answer (suc fuel) zero i h k = rw (above max_attempts i (omega (arith, k))) refl
  loop-answer (suc fuel) (suc n) i h k =
      let rest = simple_loop func max_attempts delay_ms none fuel (suc i) in
      let later = loop-answer fuel n (suc i) (omega (arith, h)) (omega (arith, k)) in
      elim (Bool-cases (succeeds (func i))) [
        | inl good ↦ rw (below max_attempts i n k, good) refl
        | inr bad ↦ elim (Bool-cases (ltb_ℤ (pos (suc i)) max_attempts)) [
          | inl more ↦
              rw (below max_attempts i n k, bad, more)
                (rw (answer-before (called i ∷ slept delay_ms ∷ []) rest) later)
          | inr last ↦
              rw (below max_attempts i n k, bad, last)
                (rw (answer-before (called i ∷ []) rest) later)
        ]
      ]

  -- Without a stop token, `simple_retry` ends, with fuel above `max_attempts`, and it answers true
  -- if and only if one of its `max_attempts` calls returns true.
  pub simple_retry-any :
      (fuel : ℕ)
      → pos_part max_attempts < fuel
      → answer (simple_retry func max_attempts delay_ms none fuel)
        ≡ some (any_success func (pos_part max_attempts) 0)
  unfolding simple_retry
  simple_retry-any fuel h = loop-answer fuel (pos_part max_attempts) 0 h (omega arith)
