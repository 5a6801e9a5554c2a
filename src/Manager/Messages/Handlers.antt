-- ===== src/Manager/Messages/Handlers.antt =====
-- The handlers of the messages that do not take the mutex, and the dispatch on the type of a message.
use apf_ue4ss.Prelude.{String, Bool, true, ◌≡◌, inl, inr, refl, List, Bool-cases, Option-cases}
use apf_ue4ss.Prelude.Int.{pos}
use apf_ue4ss.Prelude.Text.{str_eq}
use apf_ue4ss.Prelude.Dict.{string_eq}
use apf_ue4ss.Types.Json.{JsonOps, value_text, value_integer, array_at}
use apf_ue4ss.Types.Message.{IpcMessage}
use apf_ue4ss.Manager.{Manager, Surroundings, Action}
use apf_ue4ss.Manager.Messages.{
  Outcome, done, thrown, reading, with_router, cmd_restart, handle_command, all_texts,
  result_of_message, location_check, location_scout, action_result, register_message, log_message,
  priority_command, cmd_resync, cmd_reconnect, handle_ipc_message,
}

-- `Q` holds of an exception and of every return that keeps the lifecycle state.
module _ {J : Type 0} ⦃ops : JsonOps J⦄ (m : Manager J)
    (Q : Outcome (Manager J × List (Action J)) → Type 0) (t : Q thrown)
    (d : (next : Manager J × List (Action J))
      → next.0.current_state ≡ m.current_state
      → Q (done next)) where
  location_check-Ends : (id : String) (msg : IpcMessage J) → Q (location_check m id msg)
  unfolding reading location_check with_router
  location_check-Ends id msg = elim (Option-cases (value_text msg.payload "location" "")) [
    | inl e ↦ rw e t
    | inr (name, e) ↦ elim (Option-cases (value_integer msg.payload "instance" (pos 1))) [
      | inl i ↦ rw (e, i) t
      | inr (k, i) ↦ rw (e, i) (d _ refl)
    ]
  ]

  location_scout-Ends : (id : String) (msg : IpcMessage J) → Q (location_scout m id msg)
  unfolding reading location_scout with_router
  location_scout-Ends id msg = elim (Option-cases (all_texts (array_at msg.payload "locations"))) [
    | inl e ↦ rw e t
    | inr (names, e) ↦ rw e (d _ refl)
  ]

  action_result-Ends : (id : String) (msg : IpcMessage J) → Q (action_result m id msg)
  unfolding reading action_result with_router
  action_result-Ends id msg = elim (Option-cases (result_of_message id msg)) [
    | inl e ↦ rw e t
    | inr (result, e) ↦ rw e (d _ refl)
  ]

  log-Ends : (msg : IpcMessage J) → Q (log_message m msg)
  unfolding reading log_message
  log-Ends msg = elim (Option-cases (value_text msg.payload "level" "info")) [
    | inl e ↦ rw e t
    | inr (level, e) ↦ elim (Option-cases (value_text msg.payload "message" "")) [
      | inl n ↦ rw (e, n) t
      | inr (text, n) ↦ rw (e, n) (d _ refl)
    ]
  ]

  -- To prove something of the handling of a message, prove it of the five kinds that take the mutex.
  pub message-Ends :
      (held : Bool) (s : Surroundings) (msg : IpcMessage J)
      → (str_eq msg.type "register" ≡ true → Q (register_message held m msg))
      → (str_eq msg.type "cmd_restart" ≡ true
          → Q (priority_command msg.source m (cmd_restart held m s.now)))
      → (str_eq msg.type "cmd_resync" ≡ true
          → Q (priority_command msg.source m (cmd_resync held m s.now)))
      → (str_eq msg.type "cmd_reconnect" ≡ true
          → Q (priority_command msg.source m (cmd_reconnect held m s.now)))
      → (str_eq msg.type "command" ≡ true → Q (handle_command held m s msg.source msg))
      → Q (handle_ipc_message held m s msg)
  unfolding handle_ipc_message
  message-Ends held s msg q1 q6 q7 q8 q9 = elim (Bool-cases (str_eq msg.type "register")) [
    | inl e1 ↦ rw e1 (q1 e1)
    | inr e1 ↦ elim (Bool-cases (str_eq msg.type "location_check")) [
      | inl e2 ↦ rw (e1, e2) (location_check-Ends msg.source msg)
      | inr e2 ↦ elim (Bool-cases (str_eq msg.type "location_scout")) [
        | inl e3 ↦ rw (e1, e2, e3) (location_scout-Ends msg.source msg)
        | inr e3 ↦ elim (Bool-cases (str_eq msg.type "action_result")) [
          | inl e4 ↦ rw (e1, e2, e3, e4) (action_result-Ends msg.source msg)
          | inr e4 ↦ elim (Bool-cases (str_eq msg.type "log")) [
            | inl e5 ↦ rw (e1, e2, e3, e4, e5) (log-Ends msg)
            | inr e5 ↦ elim (Bool-cases (str_eq msg.type "cmd_restart")) [
              | inl e6 ↦ rw (e1, e2, e3, e4, e5, e6) (q6 e6)
              | inr e6 ↦ elim (Bool-cases (str_eq msg.type "cmd_resync")) [
                | inl e7 ↦ rw (e1, e2, e3, e4, e5, e6, e7) (q7 e7)
                | inr e7 ↦ elim (Bool-cases (str_eq msg.type "cmd_reconnect")) [
                  | inl e8 ↦ rw (e1, e2, e3, e4, e5, e6, e7, e8) (q8 e8)
                  | inr e8 ↦ elim (Bool-cases (str_eq msg.type "command")) [
                    | inl e9 ↦ rw (e1, e2, e3, e4, e5, e6, e7, e8, e9) (q9 e9)
                    | inr e9 ↦ rw (e1, e2, e3, e4, e5, e6, e7, e8, e9) (d _ refl)
                  ]
                ]
              ]
            ]
          ]
        ]
      ]
    ]
  ]
