-- ===== src/Retry/Laws.antt =====
-- When the loops of retry_util.h end and what they answer.
use apf_ue4ss.Prelude.{
  ℕ, zero, suc, ◌+◌, ◌<◌, ◌≤◌, String, Bool, true, false, ◌≡◌, refl, Option, none, some, List, [],
  ◌∷◌, leb, arith, Bool-cases, inl, inr,
}
use apf_ue4ss.Prelude.Int.{ℤ, pos, ltb_ℤ, leb_ℤ, ◌+ℤ◌, pos_part}
use apf_ue4ss.Retry.{
  RetryPolicy, Attempt, returned, threw, threw_other, Ended, gives, leaves, Stops, Effect, called,
  slept, Run, ok, fail, stop_requested, sleep_for, and_before, next_delay, pause, settle, remember,
  value_loop, retry_with_backoff_value, backoff_loop, retry_with_backoff,
}

-- The rounds that a policy allows.
unfoldable pub rounds : {D : Type 0} → RetryPolicy D → ℕ
rounds policy = pos_part (policy.max_retries +ℤ pos 1)

-- How often the function was called.
unfoldable pub calls : List Effect → ℕ
calls [] = 0
calls (called n ∷ effects) = suc (calls effects)
calls (slept d ∷ effects) = calls effects

-- That a run has ended, with at most `n` calls.
unfoldable pub ends_within : {R : Type 0} → ℕ → Run R → Bool
unfolding calls
ends_within n none = false
ends_within n (some (r, effects)) = leb (calls effects) n

-- What a search for a value finds: the value and the number of its attempt, none, or an exception
-- that ends the search.
pub data Found (T : Type 0) : Type 0 where
  found : T → ℤ → Found T
  nothing abandoned : Found T

-- The first attempt among the `n` from `a` on that gives a value, with its number, unless one before
-- it throws what is no std::exception.
unfoldable pub first_success : {T : Type 0} → (ℕ → Attempt T) → ℕ → ℕ → Found T
first_success func zero a = nothing
first_success func (suc n) a = elim (func a) [
  | returned (some v) ↦ found v (pos a)
  | returned none ↦ first_success func n (suc a)
  | threw e ↦ first_success func n (suc a)
  | threw_other ↦ abandoned
]

-- The value of an ended run and the number of attempts it took, or that it ended without one or with
-- an exception.
unfoldable pub outcome : {T : Type 0} → Run (Ended T) → Option (Found T)
outcome none = none
outcome (some (leaves, effects)) = some abandoned
outcome (some (gives r, effects)) = elim r.value [
  | none ↦ some nothing
  | some v ↦ some (found v r.attempts)
]

-- A run without the text of its error.
unfoldable pub without_error : {T : Type 0} → Run (Ended T) → Run (Ended T)
without_error none = none
without_error (some (leaves, effects)) = some (leaves, effects)
without_error (some (gives r, effects)) = some (gives (record r { last_error = "" }), effects)

ends-none : {R : Type 0} (r : R) (n : ℕ) → ends_within n (some (r, [])) ≡ true
unfolding ends_within calls
ends-none r n = ground arith

ends-now :
    {R : Type 0} (r : R) (n a : ℕ) (d : ℤ)
    → ends_within (suc n) (some (r, called a ∷ slept d ∷ [])) ≡ true
unfolding ends_within calls
ends-now r n a d = ground arith

over-limit : (m : ℤ) (a : ℕ) → pos_part m + 1 ≤ a → leb_ℤ (pos a) m ≡ false
over-limit m a h = ground arith

ends-call :
    {R : Type 0} (n a : ℕ) (run : Run R)
    → ends_within n run ≡ true
    → ends_within (suc n) (and_before (called a ∷ []) run) ≡ true
unfolding ends_within and_before calls
ends-call n a none h = h
ends-call n a (some (r, effects)) h = ground (arith, h)

ends-pause :
    {R : Type 0} (n a : ℕ) (d : ℤ) (run : Run R)
    → ends_within n run ≡ true
    → ends_within (suc n) (and_before (called a ∷ slept d ∷ []) run) ≡ true
unfolding ends_within and_before calls
ends-pause n a d none h = h
ends-pause n a d (some (r, effects)) h = ground (arith, h)

without-before :
    {T : Type 0} (effects : List Effect) (run : Run (Ended T))
    → without_error (and_before effects run) ≡ and_before effects (without_error run)
unfolding without_error and_before
without-before effects none = refl
without-before effects (some (gives r, more)) = refl
without-before effects (some (leaves, more)) = refl

same-before :
    {T : Type 0} (effects : List Effect) (r s : Run (Ended T))
    → without_error r ≡ without_error s
    → without_error (and_before effects r) ≡ without_error (and_before effects s)
same-before effects r s h = rw (without-before effects r, without-before effects s, h) refl

outcome-before :
    {T : Type 0} (effects : List Effect) (run : Run (Ended T))
    → outcome (and_before effects run) ≡ outcome run
unfolding outcome and_before
outcome-before effects none = refl
outcome-before effects (some (gives r, more)) = refl
outcome-before effects (some (leaves, more)) = refl

under-limit : (m : ℤ) (a : ℕ) → 0 < a → a ≤ pos_part m → leb_ℤ (pos a) m ≡ true
under-limit m a p h = ground arith

last-round : (m : ℤ) (a : ℕ) → a ≡ pos_part (m +ℤ pos 1) → ltb_ℤ m (pos a) ≡ true
unfolding ◌+ℤ◌
last-round m a h = ground arith

inner-round : (m : ℤ) (a n : ℕ) → suc n + a ≡ pos_part (m +ℤ pos 1) → ltb_ℤ m (pos a) ≡ false
unfolding ◌+ℤ◌
inner-round m a n h = ground arith

module _ {D : Type 0} (scale : ℤ → D → ℤ) {T : Type 0} (func : ℕ → Attempt T)
    (policy : RetryPolicy D) where
  pause-ends :
      (token : Option Stops) (n a : ℕ) (d : ℤ) (rest : Run (Ended T))
      → ends_within n rest ≡ true
      → ends_within (suc n) (pause scale func policy token a d rest) ≡ true
  unfolding pause sleep_for
  pause-ends token n a d rest h = elim (Bool-cases (leb_ℤ (pos a) policy.max_retries)) [
    | inl more ↦ elim (Bool-cases (sleep_for token a d)) [
      | inl woken ↦ rw (more, woken) (ends-now _ n a d)
      | inr full ↦ rw (more, full) (ends-pause n a d rest h)
    ]
    | inr last ↦ rw last (ends-call n a rest h)
  ]

  settle-ends :
      (token : Option Stops) (n a : ℕ) (d : ℤ) (o : Attempt T) (rest : Run (Ended T))
      → ends_within n rest ≡ true
      → ends_within (suc n) (settle scale func policy token a d o rest) ≡ true
  unfolding settle ends_within calls
  settle-ends token n a d (returned (some v)) rest h = ground arith
  settle-ends token n a d (returned none) rest h = pause-ends token n a d rest h
  settle-ends token n a d threw_other rest h = ground arith
  settle-ends token n a d (threw e) rest h = elim (Bool-cases (ltb_ℤ policy.max_retries (pos a))) [
    | inl last ↦ rw last (ground arith)
    | inr more ↦ rw more (pause-ends token n a d rest h)
  ]

  loop-ends :
      (token : Option Stops) (fuel n a : ℕ) (d : ℤ)
      → n < fuel
      → rounds policy + 1 ≤ n + a
      → ends_within n (backoff_loop scale func policy token fuel a d) ≡ true
  unfolding backoff_loop rounds
  loop-ends token zero n a d h k = absurd (omega (arith, h))
  loop-ends token (suc fuel) zero a d h k =
      rw (over-limit (policy.max_retries +ℤ pos 1) a (omega (arith, k))) (ends-none _ 0)
  loop-ends token (suc fuel) (suc n) a d h k =
      elim (Bool-cases (leb_ℤ (pos a) (policy.max_retries +ℤ pos 1))) [
        | inr over ↦ rw over (ends-none _ (suc n))
        | inl more ↦ elim (Bool-cases (stop_requested token a)) [
          | inl stop ↦ rw (more, stop) (ends-none _ (suc n))
          | inr go ↦
              rw (more, go)
                (settle-ends token n a d (func a)
                  (backoff_loop scale func policy token fuel (suc a) (next_delay scale policy d))
                  (loop-ends token fuel n (suc a) (next_delay scale policy d) (omega (arith, h))
                    (omega (arith, k))))
        ]
      ]

  -- Whatever the function does and whenever a stop is requested, `retry_with_backoff` ends, and it
  -- calls the function at most `max_retries + 1` times (never, if that is not positive); fuel above
  -- that number is enough.
  pub retry_with_backoff-ends :
      (token : Option Stops) (fuel : ℕ)
      → rounds policy < fuel
      → ends_within (rounds policy) (retry_with_backoff scale func policy token fuel) ≡ true
  unfolding retry_with_backoff
  retry_with_backoff-ends token fuel h =
      loop-ends token fuel (rounds policy) 1 policy.initial_delay_ms h (omega arith)

  pause-same :
      (token : Option Stops) (a : ℕ) (d : ℤ) (r s : Run (Ended T))
      → without_error r ≡ without_error s
      → without_error (pause scale func policy token a d r)
        ≡ without_error (pause scale func policy token a d s)
  unfolding pause
  pause-same token a d r s h = elim (Bool-cases (leb_ℤ (pos a) policy.max_retries)) [
    | inl more ↦ elim (Bool-cases (sleep_for token a d)) [
      | inl woken ↦ rw (more, woken) refl
      | inr full ↦ rw (more, full) (same-before (called a ∷ slept d ∷ []) r s h)
    ]
    | inr last ↦ rw last (same-before (called a ∷ []) r s h)
  ]

  settle-same :
      (token : Option Stops) (a : ℕ) (d : ℤ) (o : Attempt T) (r s : Run (Ended T))
      → without_error r ≡ without_error s
      → without_error (settle scale func policy token a d o r)
        ≡ without_error (settle scale func policy token a d o s)
  unfolding settle
  settle-same token a d (returned (some v)) r s h = refl
  settle-same token a d (returned none) r s h = pause-same token a d r s h
  settle-same token a d threw_other r s h = refl
  settle-same token a d (threw e) r s h = elim (Bool-cases (ltb_ℤ policy.max_retries (pos a))) [
    | inl last ↦ rw last refl
    | inr more ↦ rw more (pause-same token a d r s h)
  ]

  loop-same :
      (token : Option Stops) (fuel a : ℕ) (d : ℤ) (e : String)
      → without_error (value_loop scale func policy token fuel a d e)
        ≡ without_error (backoff_loop scale func policy token fuel a d)
  unfolding value_loop backoff_loop fail without_error
  loop-same token zero a d e = refl
  loop-same token (suc fuel) a d e =
      let next = next_delay scale policy d in
      let last = remember scale func policy token (func a) e in
      elim (Bool-cases (leb_ℤ (pos a) (policy.max_retries +ℤ pos 1))) [
        | inr over ↦ rw over refl
        | inl more ↦ elim (Bool-cases (stop_requested token a)) [
          | inl stop ↦ rw (more, stop) refl
          | inr go ↦
              rw (more, go)
                (settle-same token a d (func a)
                  (value_loop scale func policy token fuel (suc a) next last)
                  (backoff_loop scale func policy token fuel (suc a) next)
                  (loop-same token fuel (suc a) next last))
        ]
      ]

  -- `retry_with_backoff_value` is `retry_with_backoff` up to the text of the error: the same calls
  -- and pauses in the same order, the same success, value and number of attempts, with any fuel.
  pub value-same :
      (token : Option Stops) (fuel : ℕ)
      → without_error (retry_with_backoff_value scale func policy token fuel)
        ≡ without_error (retry_with_backoff scale func policy token fuel)
  unfolding retry_with_backoff_value retry_with_backoff
  value-same token fuel = loop-same token fuel 1 policy.initial_delay_ms ""

  pause-outcome :
      (a : ℕ) (d : ℤ) (rest : Run (Ended T))
      → outcome (pause scale func policy none a d rest) ≡ outcome rest
  unfolding pause sleep_for
  pause-outcome a d rest = elim (Bool-cases (leb_ℤ (pos a) policy.max_retries)) [
    | inl more ↦ rw more (outcome-before (called a ∷ slept d ∷ []) rest)
    | inr last ↦ rw last (outcome-before (called a ∷ []) rest)
  ]

  -- Without a stop token, a round gives the value of the attempt or hands on to the next.
  settle-outcome :
      (a n : ℕ) (d : ℤ) (o : Attempt T) (rest : Run (Ended T))
      → suc n + a ≡ rounds policy + 1
      → outcome rest ≡ some (first_success func n (suc a))
      → outcome (settle scale func policy none a d o rest)
        ≡ some (elim o [
          | returned (some v) ↦ found v (pos a)
          | returned none ↦ first_success func n (suc a)
          | threw e ↦ first_success func n (suc a)
          | threw_other ↦ abandoned
        ])
  unfolding settle outcome ok fail first_success rounds
  settle-outcome a n d (returned (some v)) rest k h = refl
  settle-outcome a n d (returned none) rest k h = rw (pause-outcome a d rest) h
  settle-outcome a n d threw_other rest k h = refl
  settle-outcome a zero d (threw e) rest k h =
      rw (last-round policy.max_retries a (omega (arith, k))) refl
  settle-outcome a (suc n) d (threw e) rest k h =
      rw (inner-round policy.max_retries a n (omega (arith, k)), pause-outcome a d rest) h

  loop-outcome :
      (fuel n a : ℕ) (d : ℤ)
      → n < fuel
      → 0 < a
      → n + a ≡ rounds policy + 1
      → outcome (backoff_loop scale func policy none fuel a d) ≡ some (first_success func n a)
  unfolding backoff_loop stop_requested rounds first_success outcome fail
  loop-outcome zero n a d h p k = absurd (omega (arith, h))
  loop-outcome (suc fuel) zero a d h p k =
      rw (over-limit (policy.max_retries +ℤ pos 1) a (omega (arith, k))) refl
  loop-outcome (suc fuel) (suc n) a d h p k =
      let next = next_delay scale policy d in
      rw (under-limit (policy.max_retries +ℤ pos 1) a p (omega (arith, k))) (
        settle-outcome a n d (func a) (backoff_loop scale func policy none fuel (suc a) next) k
          (loop-outcome fuel n (suc a) next (omega (arith, h)) (omega arith) (omega (arith, k))))

  -- Without a stop token, `retry_with_backoff` refines the search for the first of the attempts
  -- 1 .. `max_retries + 1` that gives a value: it succeeds with that value and the number of that
  -- attempt, it fails if there is none, and an exception leaves it if one that is no std::exception
  -- comes first.
  pub retry-first_success :
      (fuel : ℕ)
      → rounds policy < fuel
      → outcome (retry_with_backoff scale func policy none fuel)
        ≡ some (first_success func (rounds policy) 1)
  unfolding retry_with_backoff
  retry-first_success fuel h =
      loop-outcome fuel (rounds policy) 1 policy.initial_delay_ms h (omega arith) (omega arith)
