-- ===== src/Queue.antt =====
-- APFrameworkCore/include/thread_safe_queue.h, class `ThreadSafeQueue`. Each operation runs whole
-- under the queue's mutex, so the calls of several threads are one sequence of steps.
pub mod Fifo
use apf_ue4ss.Prelude.{
  ℕ, Bool, true, false, ◌&&◌, Option, none, some, List, [], ◌∷◌, ◌++◌, length, ltb, leb,
  if◌then◌else◌,
}

pub record ThreadSafeQueue (A : Type 0) : Type 0 where
  pub items : List A
  pub max_size : ℕ
  pub is_shutdown : Bool

module _ {A : Type 0} where
  -- Both versions of `push`, by copy and by move.
  unfoldable pub push : ThreadSafeQueue A → A → ThreadSafeQueue A × Bool
  push q item =
      if q.is_shutdown
      then (q, false)
      else if ltb 0 q.max_size && leb q.max_size (length q.items)
      then (q, false)
      else (record q { items = q.items ++ item ∷ [] }, true)

  -- The first element, taken out.
  unfoldable pub take_front : ThreadSafeQueue A → List A → ThreadSafeQueue A × Option A
  take_front q [] = (q, none)
  take_front q (item ∷ items) = (record q { items = items }, some item)

  unfoldable pub try_pop : ThreadSafeQueue A → ThreadSafeQueue A × Option A
  unfolding take_front
  try_pop q = take_front q q.items

  -- `none` while the call waits: the queue is empty and not shut down.
  unfoldable pub pop : ThreadSafeQueue A → Option (ThreadSafeQueue A × Option A)
  unfolding take_front
  pop q = elim q.items [
    | [] ↦ if q.is_shutdown then some (q, none) else none
    | ◌∷◌ item items ↦ some (take_front q (item ∷ items))
  ]

  unfoldable pub pop_all : ThreadSafeQueue A → ThreadSafeQueue A × List A
  pop_all q = (record q { items = [] }, q.items)

  unfoldable pub clear : ThreadSafeQueue A → ThreadSafeQueue A
  clear q = record q { items = [] }

  unfoldable pub shutdown : ThreadSafeQueue A → ThreadSafeQueue A
  shutdown q = record q { is_shutdown = true }

  unfoldable pub size : ThreadSafeQueue A → ℕ
  size q = length q.items

  unfoldable pub reset : ThreadSafeQueue A → ThreadSafeQueue A
  reset q = record q { items = []; is_shutdown = false }
