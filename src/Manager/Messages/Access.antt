-- ===== src/Manager/Messages/Access.antt =====
-- Who may move the lifecycle, what takes the mutex, and what a run of events counts.
use apf_ue4ss.Prelude.{
  ℕ, String, Bool, false, ◌≡◌, inl, inr, refl, some, List, [], ◌∷◌, fold, Bool-cases, Option-cases,
  subst,
}
use apf_ue4ss.Prelude.Dict.{lookup, string_eq}
use apf_ue4ss.Types.Enums.{discovery}
use apf_ue4ss.Types.Json.{JsonOps, value_text}
use apf_ue4ss.Types.Message.{IpcMessage}
use apf_ue4ss.Registry.{is_some, mark_registered, reset_registrations}
use apf_ue4ss.Registry.Pattern.{is_priority_client}
use apf_ue4ss.Manager.{Manager, Surroundings, Action, transition_to_unlocked, handle_state}
use apf_ue4ss.Manager.Messages.Handlers.{message-Ends}
use apf_ue4ss.Manager.Messages.{
  Outcome, done, thrown, deadlock, reading, locking, in_registration, FrameworkEvent, register_mod,
  cmd_restart, handle_command, register_message, priority_command, cmd_resync, cmd_reconnect,
  handle_ipc_message, poll, update,
}

-- A property of what is returned, if a call returns.
pub data Returns {A : Type 0} (P : A → Type 0) : Outcome A → Type 0 where
  returned : {a : A} → P a → Returns P (done a)
  throws : Returns P thrown
  blocks : Returns P deadlock

result_of : {A : Type 0} {P : A → Type 0} {a : A} → Returns P (done a) → P a
result_of (returned p) = p

module _ {J : Type 0} ⦃ops : JsonOps J⦄ where
  -- A registration whose id and version are readable, as the first message of a call of `update`,
  -- blocks the thread for ever: `update` holds the mutex that `register_mod` locks.
  pub update-register :
      (m : Manager J) (s : Surroundings) (msg : IpcMessage J) (msgs : List (IpcMessage J))
      (events : List FrameworkEvent) (mod_id version : String)
      → msg.type ≡ "register"
      → value_text msg.payload "mod_id" "" ≡ some mod_id
      → value_text msg.payload "version" "1.0.0" ≡ some version
      → update m s (msg ∷ msgs) events ≡ deadlock
  unfolding update poll handle_ipc_message register_message register_mod locking
  update-register m s msg msgs events mod_id version h a b =
      rw (update, poll, handle_ipc_message, register_message, h, a, b) refl

  in_discovery :
      (m : Manager J) (now : ℕ) (ss : List Surroundings)
      → let d = record m { current_state = discovery; state_entered_at = now } in
        fold (λ m s. (handle_state m s).0) d ss ≡ d
  unfolding handle_state
  in_discovery m now [] = refl
  in_discovery m now (s ∷ ss) = in_discovery m now ss

  -- Outside `update`, `cmd_restart` returns and enters DISCOVERY, where the state handlers of later
  -- calls of `update` find nothing to do: however often they run, the manager stays as it is.
  pub cmd_restart-handle_state :
      (m : Manager J) (now : ℕ) (ss : List Surroundings)
      → (next : Manager J × List (Action J)) × (cmd_restart false m now ≡ done next)
        × (fold (λ m s. (handle_state m s).0) next.0 ss ≡ next.0)
        × (next.0.current_state ≡ discovery)
  unfolding cmd_restart locking transition_to_unlocked handle_state
  cmd_restart-handle_state m now ss =
      (_, refl, in_discovery (record m { registry = reset_registrations m.registry }) now ss, refl)

module _ {J : Type 0} ⦃ops : JsonOps J⦄ (held : Bool) (m : Manager J) where
  abbrev Keeps : Outcome (Manager J × List (Action J)) → Type 0
  Keeps = Returns (λ next. next.0.current_state ≡ m.current_state)

  register_mod-Keeps :
      (mod_id : String)
      → Keeps (elim (register_mod held m mod_id) [
        | done (m', es, ok) ↦ done (m', es)
        | thrown ↦ thrown
        | deadlock ↦ deadlock
      ])
  unfolding register_mod locking mark_registered
  register_mod-Keeps mod_id = elim (Bool-cases held) [
    | inl h ↦ rw h blocks
    | inr h ↦ elim (Bool-cases (in_registration m.current_state)) [
      | inr e ↦ rw (h, e) (returned refl)
      | inl e ↦ elim (Bool-cases (is_some (lookup mod_id m.registry.manifests))) [
        | inr u ↦ rw (h, e, u) (returned refl)
        | inl u ↦ rw (h, e, u) (returned refl)
      ]
    ]
  ]

  register-Keeps : (msg : IpcMessage J) → Keeps (register_message held m msg)
  unfolding reading register_message
  register-Keeps msg = elim (Option-cases (value_text msg.payload "mod_id" "")) [
    | inl e ↦ rw e throws
    | inr (mod_id, e) ↦ elim (Option-cases (value_text msg.payload "version" "1.0.0")) [
      | inl v ↦ rw (e, v) throws
      | inr (version, v) ↦ rw (e, v) (register_mod-Keeps mod_id)
    ]
  ]

  priority_command-Keeps :
      (id : String) (command : Outcome (Manager J × List (Action J)))
      → is_priority_client id ≡ false
      → Keeps (priority_command id m command)
  unfolding priority_command
  priority_command-Keeps id command h = rw h (returned refl)

  handle_command-Keeps :
      (s : Surroundings) (id : String) (msg : IpcMessage J)
      → is_priority_client id ≡ false
      → Keeps (handle_command held m s id msg)
  unfolding reading handle_command
  handle_command-Keeps s id msg h = elim (Option-cases (value_text msg.payload "command" "")) [
    | inl e ↦ rw e throws
    | inr (command, e) ↦ rw (e, h) (returned refl)
  ]

  message-Keeps :
      (s : Surroundings) (msg : IpcMessage J)
      → is_priority_client msg.source ≡ false
      → Keeps (handle_ipc_message held m s msg)
  message-Keeps s msg h =
      let id = msg.source in
      message-Ends m Keeps throws (λ next kept. returned kept) held s msg (λ e. register-Keeps msg)
        (λ e. priority_command-Keeps id (cmd_restart held m s.now) h)
        (λ e. priority_command-Keeps id (cmd_resync held m s.now) h)
        (λ e. priority_command-Keeps id (cmd_reconnect held m s.now) h)
        (λ e. handle_command-Keeps s id msg h)

  -- If the handling of a message returns whose sender is no priority client, the lifecycle state is
  -- as it was, whatever the type and the payload of the message.
  pub handle_ipc_message-priority :
      (s : Surroundings) (msg : IpcMessage J) (next : Manager J × List (Action J))
      → is_priority_client msg.source ≡ false
      → handle_ipc_message held m s msg ≡ done next
      → next.0.current_state ≡ m.current_state
  handle_ipc_message-priority s msg next h e = result_of (subst Keeps e (message-Keeps s msg h))
