-- ===== src/Examples/Queue.antt =====
-- A queue of at most two numbers.
use apf_ue4ss.Prelude.{ℕ, false, ◌≡◌, [], ◌∷◌, ◌++◌}
use apf_ue4ss.Queue.{ThreadSafeQueue}
use apf_ue4ss.Queue.Fifo.{pushes, pops, run, run-order}

abbrev pair : ThreadSafeQueue ℕ
pair = record { items = 1 ∷ []; max_size = 2; is_shutdown = false }

run-order_example :
    1 ∷ (run pair (pushes 2 ∷ pushes 3 ∷ pops ∷ [])).1
    ≡ (run pair (pushes 2 ∷ pushes 3 ∷ pops ∷ [])).2
      ++ (run pair (pushes 2 ∷ pushes 3 ∷ pops ∷ [])).0.items
run-order_example = run-order pair (pushes 2 ∷ pushes 3 ∷ pops ∷ [])
