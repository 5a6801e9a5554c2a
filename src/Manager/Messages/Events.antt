-- ===== src/Manager/Messages/Events.antt =====
-- The events of the polling thread: the index of the items received.
use apf_ue4ss.Prelude.{ℕ, suc, ◌+◌, ◌≡◌, refl, sym, ◌∙◌, ap, List, [], ◌∷◌, arith}
use apf_ue4ss.Prelude.Int.{ℤ, pos, ◌+ℤ◌, +ℤ-zero, +ℤ-pos}
use apf_ue4ss.Types.Enums.{error_state}
use apf_ue4ss.Types.Json.{JsonOps}
use apf_ue4ss.Session.{increment_received_item_index}
use apf_ue4ss.Manager.{Manager, Surroundings, transition_to_unlocked}
use apf_ue4ss.Manager.Messages.{
  FrameworkEvent, item_received, lifecycle, failure, ap_message, other, handle_framework_event,
  process_events,
}

-- The items received among the events.
abbrev pub item_events : List FrameworkEvent → ℕ
item_events [] = 0
item_events (item_received id name sender ∷ es) = suc (item_events es)
item_events (lifecycle l text ∷ es) = item_events es
item_events (failure code text details ∷ es) = item_events es
item_events (ap_message type text ∷ es) = item_events es
item_events (other ∷ es) = item_events es

item_events-cons :
    (e : FrameworkEvent) (es : List FrameworkEvent)
    → item_events (e ∷ es) ≡ item_events (e ∷ []) + item_events es
item_events-cons (item_received id name sender) es = omega arith
item_events-cons (lifecycle l text) es = omega arith
item_events-cons (failure code text details) es = omega arith
item_events-cons (ap_message type text) es = omega arith
item_events-cons other es = omega arith

module _ {J : Type 0} ⦃ops : JsonOps J⦄ where
  abbrev index : Manager J → ℤ
  index m = m.session.state.received_item_index

  event-index :
      (m : Manager J) (s : Surroundings) (e : FrameworkEvent)
      → index (handle_framework_event m s e).0 ≡ index m +ℤ pos (item_events (e ∷ []))
  unfolding handle_framework_event increment_received_item_index transition_to_unlocked
  event-index m s (item_received id name sender) = refl
  event-index m s (lifecycle error_state text) = sym (+ℤ-zero _)
  event-index m s (lifecycle _ text) = sym (+ℤ-zero _)
  event-index m s (failure code text details) = sym (+ℤ-zero _)
  event-index m s (ap_message type text) = sym (+ℤ-zero _)
  event-index m s other = sym (+ℤ-zero _)

  -- The index of received items grows by one for each item among the events that are processed and
  -- by nothing else.
  pub process_events-received_item_index :
      (m : Manager J) (s : Surroundings) (events : List FrameworkEvent)
      → (process_events m s events).0.session.state.received_item_index
        ≡ m.session.state.received_item_index +ℤ pos (item_events events)
  unfolding process_events
  process_events-received_item_index m s [] = sym (+ℤ-zero _)
  process_events-received_item_index m s (e ∷ es) =
      let first = (handle_framework_event m s e).0 in
      rw (item_events-cons e es) (
        process_events-received_item_index first s es
        ∙ ap (λ n. n +ℤ pos (item_events es)) (event-index m s e)
        ∙ +ℤ-pos (index m) (item_events (e ∷ [])) (item_events es))
