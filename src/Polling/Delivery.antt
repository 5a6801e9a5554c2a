-- ===== src/Polling/Delivery.antt =====
-- What becomes of the callbacks of the AP client, and of a thread that is not joined.
use apf_ue4ss.Prelude.{
  String, true, false, none, some, List, [], ◌∷◌, map, ◌≡◌, refl, inl, inr, Option-cases,
}
use apf_ue4ss.Prelude.Int.{ℤ, leb_ℤ}
use apf_ue4ss.Types.Enums.{LifecycleState, error_state}
use apf_ue4ss.Types.Json.{JsonOps}
use apf_ue4ss.Router.{ScoutResult}
use apf_ue4ss.Manager.{Manager, Surroundings, transition_to_unlocked}
use apf_ue4ss.Manager.Messages as manager
use apf_ue4ss.Manager.Messages.{FrameworkEvent, handle_framework_event, process_events}
use apf_ue4ss.Polling.{
  PollingThread, QueuedEvent, item, scout, lifecycle, failure, ap_message, Callback, item_received,
  location_scouted, slot_connected, slot_refused, printed, printed_json, bounced, disconnected,
  events_of, scout_events, json_message, answered, terminated, start, stop,
}

module _ {J : Type 0} where
  -- What the visitor of `handle_framework_event` looks at.
  unfoldable pub seen : QueuedEvent J → FrameworkEvent
  seen (item e) = manager.item_received e.item_id e.item_name e.sender
  seen (scout e) = manager.other
  seen (lifecycle e) = manager.lifecycle e.new_state e.message
  seen (failure e) = manager.failure e.code e.message e.details
  seen (ap_message e) = manager.ap_message e.type e.message

  -- The polling thread stops and starts without an end of the process while the timeout is longer
  -- than the time until the first check: the thread is joined, without a limit of time. A stop that
  -- gives up leaves the thread, and the next start with a client ends the process.
  pub start-stop :
      (p : PollingThread J) (timeout_ms elapsed_ms interval_ms : ℤ)
      → p.running ≡ true
      → p.joinable ≡ true
      → (leb_ℤ timeout_ms elapsed_ms ≡ false
          → ((stop p timeout_ms elapsed_ms).1 ≡ true)
            × (start (stop p timeout_ms elapsed_ms).0 true interval_ms
                ≡ answered (record p { stop_requested = false; interval_ms = interval_ms }) true))
        × (leb_ℤ timeout_ms elapsed_ms ≡ true
            → ((stop p timeout_ms elapsed_ms).1 ≡ false)
              × (start (stop p timeout_ms elapsed_ms).0 true interval_ms ≡ terminated))
  unfolding start stop
  start-stop p timeout_ms elapsed_ms interval_ms on joinable =
      ((λ h. simp (on, joinable, h) (refl, refl)), (λ h. simp (on, joinable, h) (refl, refl)))

-- The state after a callback: the disconnection is the only one that changes it.
unfoldable pub state_after : {J : Type 0} → LifecycleState → Callback J → LifecycleState
state_after state (item_received received) = state
state_after state (location_scouted results) = state
state_after state (slot_connected slot_name) = state
state_after state (slot_refused errors) = state
state_after state disconnected = error_state
state_after state (printed msg) = state
state_after state (printed_json type data_json) = state
state_after state (bounced data_json) = state

module _ {J : Type 0} ⦃ops : JsonOps J⦄ where
  -- The events of a callback, handled by the manager.
  unfoldable pub handled : ℤ → (ℤ → String) → Manager J → Surroundings → Callback J → Manager J
  unfolding events_of seen process_events
  handled player_number location_name m s callback =
      elim (events_of player_number location_name callback) [
        | none ↦ m
        | some events ↦ (process_events m s (map seen events)).0
      ]

  scouts_state :
      (location_name : ℤ → String) (m : Manager J) (s : Surroundings) (results : List ScoutResult)
      → (process_events m s
          (map (seen {J = J}) (scout_events location_name results))).0.current_state
        ≡ m.current_state
  unfolding process_events scout_events seen handle_framework_event
  scouts_state location_name m s [] = refl
  scouts_state location_name m s (result ∷ results) = scouts_state location_name m s results

  -- Of all callbacks of the AP client only the disconnection changes the lifecycle state, to
  -- ERROR_STATE; the event of a slot connection, which names SYNCING, leaves it.
  pub handled-state_after :
      (player_number : ℤ) (location_name : ℤ → String) (m : Manager J) (s : Surroundings)
      (callback : Callback J)
      → (handled player_number location_name m s callback).current_state
        ≡ state_after m.current_state callback
  unfolding handled events_of process_events handle_framework_event seen state_after
      transition_to_unlocked
  handled-state_after n name m s (item_received received) = refl
  handled-state_after n name m s (location_scouted results) = scouts_state name m s results
  handled-state_after n name m s (slot_connected slot_name) = refl
  handled-state_after n name m s (slot_refused errors) = refl
  handled-state_after n name m s disconnected = refl
  handled-state_after n name m s (printed msg) = refl
  handled-state_after n name m s (printed_json type data_json) =
      elim (Option-cases (json_message data_json)) [
        | inl bad ↦ rw (handled, events_of, bad) refl
        | inr (message, e) ↦ rw (handled, events_of, e) refl
      ]
  handled-state_after n name m s (bounced data_json) = refl
