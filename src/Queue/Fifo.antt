-- ===== src/Queue/Fifo.antt =====
-- Sequences of calls on a queue: order, capacity and shutdown.
use mathlib.Core.List.{append_assoc, append-nil}
use apf_ue4ss.Prelude.{
  ◌≤◌, ◌<◌, true, ◌&&◌, ◌≡◌, refl, sym, ◌∙◌, ap, Option, none, some, List, [], ◌∷◌, ◌++◌, length,
  length-append, ltb, leb, if◌then◌else◌, arith, Bool-cases, inl, inr,
}
use apf_ue4ss.Queue.{ThreadSafeQueue, push, take_front, try_pop, pop_all, shutdown, size}

-- The calls that do not drop elements.
pub data Call (A : Type 0) : Type 0 where
  pushes : A → Call A
  pops drains shuts : Call A

module _ {A : Type 0} where
  abbrev pub to_list : Option A → List A
  to_list none = []
  to_list (some a) = a ∷ []

  -- The queue after a call, what it accepted and what it delivered.
  unfoldable pub step : ThreadSafeQueue A → Call A → ThreadSafeQueue A × List A × List A
  unfolding push try_pop pop_all shutdown
  step q (pushes item) = let r = push q item in (r.0, (if r.1 then item ∷ [] else []), [])
  step q pops = let r = try_pop q in (r.0, [], to_list r.1)
  step q drains = let r = pop_all q in (r.0, [], r.1)
  step q shuts = (shutdown q, [], [])

  unfoldable pub run : ThreadSafeQueue A → List (Call A) → ThreadSafeQueue A × List A × List A
  unfolding step
  run q [] = (q, [], [])
  run q (c ∷ cs) =
      let first = step q c in
      let rest = run first.0 cs in (rest.0, first.1 ++ rest.1, first.2 ++ rest.2)

  front-step :
      (q : ThreadSafeQueue A) (items : List A)
      → items ++ []
        ≡ to_list (take_front (record q { items = items }) items).1
          ++ (take_front (record q { items = items }) items).0.items
  unfolding take_front
  front-step q [] = refl
  front-step q (item ∷ items) = append-nil (item ∷ items)

  -- One call neither loses nor reorders.
  step-order :
      (q : ThreadSafeQueue A) (c : Call A)
      → q.items ++ (step q c).1 ≡ (step q c).2 ++ (step q c).0.items
  unfolding step push try_pop pop_all shutdown
  step-order q (pushes item) = elim (Bool-cases q.is_shutdown) [
    | inl e ↦ rw e (append-nil q.items)
    | inr e ↦ elim (Bool-cases (ltb 0 q.max_size && leb q.max_size (length q.items))) [
      | inl full ↦ rw (e, full) (append-nil q.items)
      | inr room ↦ rw (e, room) refl
    ]
  ]
  step-order q pops = front-step q q.items
  step-order q drains = refl
  step-order q shuts = append-nil q.items

  -- First in, first out: over any sequence of pushes, pops, drains and shutdowns, what was in the
  -- queue followed by what it accepted is what it delivered followed by what is left in it.
  pub run-order :
      (q : ThreadSafeQueue A) (cs : List (Call A))
      → q.items ++ (run q cs).1 ≡ (run q cs).2 ++ (run q cs).0.items
  unfolding run
  run-order q [] = append-nil q.items
  run-order q (c ∷ cs) =
      let first = step q c in
      let rest = run first.0 cs in
      sym (append_assoc q.items first.1 rest.1)
      ∙ ap (λ l. l ++ rest.1) (step-order q c)
      ∙ append_assoc first.2 first.0.items rest.1
      ∙ ap (λ l. first.2 ++ l) (run-order first.0 cs)
      ∙ sym (append_assoc first.2 rest.2 rest.0.items)

  front-size :
      (q : ThreadSafeQueue A) (items : List A)
      → length items ≤ q.max_size
      → ((take_front (record q { items = items }) items).0.max_size ≡ q.max_size)
        × (length (take_front (record q { items = items }) items).0.items ≤ q.max_size)
  unfolding take_front
  front-size q [] h = (refl, h)
  front-size q (item ∷ items) h = (refl, omega (arith, h))

  front-shutdown :
      (q : ThreadSafeQueue A) (items : List A)
      → q.is_shutdown ≡ true
      → (take_front q items).0.is_shutdown ≡ true
  unfolding take_front
  front-shutdown q [] h = h
  front-shutdown q (item ∷ items) h = h

  step-size :
      (q : ThreadSafeQueue A) (c : Call A)
      → 0 < q.max_size
      → length q.items ≤ q.max_size
      → ((step q c).0.max_size ≡ q.max_size) × (length (step q c).0.items ≤ q.max_size)
  unfolding step push try_pop pop_all shutdown take_front
  step-size q (pushes item) pos h = elim (Bool-cases q.is_shutdown) [
    | inl e ↦ rw e (refl, h)
    | inr e ↦ elim (Bool-cases (ltb 0 q.max_size && leb q.max_size (length q.items))) [
      | inl full ↦ rw (e, full) (refl, h)
      | inr room ↦ rw (e, room) (refl, ground (arith, room, pos, length-append q.items (item ∷ [])))
    ]
  ]
  step-size q pops pos h = front-size q q.items h
  step-size q drains pos h = (refl, omega arith)
  step-size q shuts pos h = (refl, h)

  -- A queue with a maximum size other than 0 that holds no more elements than that still does so
  -- after any sequence of calls.
  pub run-size :
      (q : ThreadSafeQueue A) (cs : List (Call A))
      → 0 < q.max_size
      → length q.items ≤ q.max_size
      → size (run q cs).0 ≤ q.max_size
  unfolding run size
  run-size q [] pos h = h
  run-size q (c ∷ cs) pos h =
      let (same, small) = step-size q c pos h in
      let next = (step q c).0 in
      omega (arith, same, run-size next cs (omega (arith, same, pos)) (omega (arith, same, small)))

  -- A queue that is shut down accepts nothing more.
  pub run-shutdown :
      (q : ThreadSafeQueue A) (cs : List (Call A)) → q.is_shutdown ≡ true → (run q cs).1 ≡ []
  unfolding run step push try_pop pop_all shutdown
  run-shutdown q [] h = refl
  run-shutdown q (pushes item ∷ cs) h = simp (h, run-shutdown q cs h)
  run-shutdown q (pops ∷ cs) h = run-shutdown (try_pop q).0 cs (front-shutdown q q.items h)
  run-shutdown q (drains ∷ cs) h = run-shutdown (pop_all q).0 cs h
  run-shutdown q (shuts ∷ cs) h = run-shutdown (shutdown q) cs refl
