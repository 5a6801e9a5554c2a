-- ===== src/Manager/Messages/Commands.antt =====
-- ap_manager.cpp: what takes the manager's mutex, `register_mod` and the commands. `held` says whether
-- the calling thread holds the mutex already, which is not recursive; the lock is then never granted.
use apf_ue4ss.Prelude.{
  ℕ, ◌-◌, String, Bool, true, false, not, Option, none, some, List, [], ◌∷◌, ◌++◌, map, length,
  if◌then◌else◌,
}
use Prim.Native.String.{◌++◌ as append_text}
use apf_ue4ss.Prelude.Int.{pos}
use apf_ue4ss.Prelude.Text.{str_eq}
use apf_ue4ss.Types.Enums.{
  LifecycleState, lifecycle_state_to_string, discovery, resyncing, connecting,
  priority_registration, registration,
}
use apf_ue4ss.Types.Json.{JsonOps, value_text}
use apf_ue4ss.Types.Message.{IpcMessage}
use apf_ue4ss.Registry.{
  mark_registered, reset_registrations, count, get_pending_registrations, get_enabled_manifests,
  is_registered,
}
use apf_ue4ss.Registry.Pattern.{is_priority_client}
use apf_ue4ss.Router.{sent}
use apf_ue4ss.Manager.{Manager, Surroundings, Action, routed, disconnected, transition_to_unlocked}

-- A call returns, throws out of `update`, or waits for ever for a mutex of its own thread.
pub data Outcome (A : Type 0) : Type 0 where
  done : A → Outcome A
  thrown deadlock : Outcome A

-- Of a reading of a payload that throws on a member of the wrong type.
unfoldable pub reading : {A B : Type 0} → Option A → (A → Outcome B) → Outcome B
reading none f = thrown
reading (some a) f = f a

-- A `lock_guard` of the mutex and the code it guards. To lock a std::mutex that the thread holds is
-- undefined behaviour; here it takes its usual form and waits for ever.
unfoldable pub locking : {A : Type 0} → Bool → A → Outcome A
locking held body = if held then deadlock else done body

unfoldable pub in_registration : LifecycleState → Bool
in_registration priority_registration = true
in_registration registration = true
in_registration _ = false

module _ {J : Type 0} ⦃ops : JsonOps J⦄ where
  unfoldable pub registration_response : String → IpcMessage J
  registration_response mod_id = record {
    type = "registration_response";
    source = "framework";
    target = mod_id;
    payload = ops.object (("success", ops.boolean true) ∷ ("mod_id", ops.text mod_id) ∷ []);
  }

  unfoldable pub register_mod :
      Bool → Manager J → String → Outcome (Manager J × List (Action J) × Bool)
  unfolding locking in_registration registration_response
  register_mod held m mod_id =
      let marked = mark_registered m.registry mod_id in
      let refused : Manager J × List (Action J) × Bool = (m, [], false) in
      locking held (
        if not (in_registration m.current_state)
        then refused
        else if not marked.1
        then refused
        else (
          record m { registry = marked.0 },
          routed (sent mod_id (registration_response mod_id)) ∷ [],
          true,
        ))

  unfoldable pub register_priority_client :
      Bool → Manager J → String → Outcome (Manager J × List (Action J) × Bool)
  unfolding register_mod
  register_priority_client held m mod_id =
      if is_priority_client mod_id then register_mod held m mod_id else done (m, [], false)

  unfoldable pub cmd_restart : Bool → Manager J → ℕ → Outcome (Manager J × List (Action J))
  unfolding locking
  cmd_restart held m now = locking held (
      transition_to_unlocked (record m { registry = reset_registrations m.registry }) now discovery
        "Restarting")

  unfoldable pub cmd_resync : Bool → Manager J → ℕ → Outcome (Manager J × List (Action J))
  unfolding locking
  cmd_resync held m now =
      locking held (transition_to_unlocked m now resyncing "Manual resync requested")

  unfoldable pub cmd_reconnect : Bool → Manager J → ℕ → Outcome (Manager J × List (Action J))
  unfolding locking
  cmd_reconnect held m now =
      let next = transition_to_unlocked m now connecting "Reconnecting to AP server" in
      locking held (next.0, disconnected ∷ next.1)

  -- The answer to a command, with the name of the command entered last.
  unfoldable pub respond : String → String → List (String × J) → Action J
  respond client_id command fields = routed (
      sent client_id (record {
        type = "command_response";
        source = "framework";
        target = client_id;
        payload = ops.object (fields ++ ("command", ops.text command) ∷ []);
      }))

  -- The answer after a command that changes the lifecycle.
  unfoldable pub after_command :
      String
      → String
      → Outcome (Manager J × List (Action J))
      → Outcome (Manager J × List (Action J))
  unfolding respond
  after_command client_id command (done (m, es)) =
      done (m, es ++ respond client_id command (("success", ops.boolean true) ∷ []) ∷ [])
  after_command client_id command thrown = thrown
  after_command client_id command deadlock = deadlock

  unfoldable pub status_data : Manager J → Surroundings → J
  status_data m s =
      let total = count m.registry in
      let pending = length (get_pending_registrations m.registry) in
      ops.object (
        ("state", ops.text (lifecycle_state_to_string m.current_state))
        ∷ ("connected_clients", ops.integer (pos s.client_count))
        ∷ ("ap_connected", ops.boolean s.slot_connected)
        ∷ ("registered_mods", ops.integer (pos (total - pending)))
        ∷ ("total_mods", ops.integer (pos total))
        ∷ [])

  unfoldable pub mods_data : Manager J → J
  mods_data m = ops.object (
      (
        "mods",
        ops.array (
            map
              (λ x. ops.object (
                ("mod_id", ops.text x.mod_id)
                ∷ ("name", ops.text x.name)
                ∷ ("version", ops.text x.version)
                ∷ ("registered", ops.boolean (is_registered m.registry x.mod_id))
                ∷ []))
              (get_enabled_manifests m.registry)),
      )
      ∷ [])

  unfoldable pub run_command :
      Bool → Manager J → Surroundings → String → String → Outcome (Manager J × List (Action J))
  unfolding cmd_restart cmd_resync cmd_reconnect after_command respond status_data mods_data
  run_command held m s client_id command =
      let success : String × J = ("success", ops.boolean true) in
      if str_eq command "restart"
      then after_command client_id command (cmd_restart held m s.now)
      else if str_eq command "resync"
      then after_command client_id command (cmd_resync held m s.now)
      else if str_eq command "reconnect"
      then after_command client_id command (cmd_reconnect held m s.now)
      else if str_eq command "status"
      then done (m, respond client_id command (success ∷ ("data", status_data m s) ∷ []) ∷ [])
      else if str_eq command "get_mods"
      then done (m, respond client_id command (success ∷ ("data", mods_data m) ∷ []) ∷ [])
      else done (
        m,
        respond client_id command (
              ("success", ops.boolean false)
              ∷ ("error", ops.text (append_text "Unknown command: " command))
              ∷ [])
            ∷ [],
      )

  -- The refusal lists the command first; the order of the members has no meaning.
  unfoldable pub handle_command :
      Bool
      → Manager J
      → Surroundings
      → String
      → IpcMessage J
      → Outcome (Manager J × List (Action J))
  unfolding reading run_command respond
  handle_command held m s client_id msg = reading (value_text msg.payload "command" "") (λ command.
      if is_priority_client client_id
      then run_command held m s client_id command
      else done (
        m,
        respond client_id command
              (("success", ops.boolean false) ∷ ("error", ops.text "Not a priority client") ∷ [])
            ∷ [],
      ))
