-- ===== src/Manager/Messages.antt =====
-- ap_manager.cpp: the messages of the clients and the events, and `update` around them.
mod Commands
pub mod Access
pub mod Events
pub mod Handlers
pub mod Locks
unfoldable pub use Commands.*
use apf_ue4ss.Prelude.{
  ℕ, ◌-◌, String, Bool, true, false, not, ◌&&◌, ◌||◌, Option, none, some, List, [], ◌∷◌, ◌++◌, map,
  length, if◌then◌else◌, ◌>>=◌,
}
use Prim.Native.String.{◌++◌ as append_text}
use apf_ue4ss.Prelude.Int.{ℤ, pos}
use apf_ue4ss.Prelude.Text.{str_eq}
use apf_ue4ss.Types.{ActionResult}
use apf_ue4ss.Types.Enums.{
  LifecycleState, lifecycle_state_to_string, discovery, resyncing, connecting, error_state,
  priority_registration, registration,
}
use apf_ue4ss.Types.Json.{JsonOps, value_text, value_integer, value_boolean, array_at}
use apf_ue4ss.Types.Message.{IpcMessage}
use apf_ue4ss.Session.{increment_received_item_index, StateManager}
use apf_ue4ss.Registry.{
  Registry, mark_registered, reset_registrations, count, get_pending_registrations,
  get_enabled_manifests, is_registered,
}
use apf_ue4ss.Registry.Pattern.{is_priority_client}
use apf_ue4ss.Router.{
  Router, Effect, sent, route_location_check, route_location_scouts, handle_action_result,
  route_item_receipt, broadcast_error, broadcast_ap_message,
}
use apf_ue4ss.Manager.{
  Manager, Surroundings, Action, routed, disconnected, saved, threw, router, transition_to_unlocked,
  handle_state,
}

-- `FrameworkEvent`, with the events that the manager ignores as one.
pub data FrameworkEvent : Type 0 where
  item_received : ℤ → String → String → FrameworkEvent
  lifecycle : LifecycleState → String → FrameworkEvent
  failure : String → String → String → FrameworkEvent
  ap_message : String → String → FrameworkEvent
  other : FrameworkEvent

module _ {J : Type 0} where
  -- The manager after a call of the router.
  unfoldable pub with_router : Manager J → Router J → Manager J
  with_router m r = record m {
    session = elim r.state_manager [ none ↦ m.session | some session ↦ session ];
    pending_scouts = r.pending_scouts;
  }

  abbrev pub all_routed : List (Effect J) → List (Action J)
  all_routed es = map (λ e. routed e) es

  -- What is done before a call that returns.
  abbrev pub after :
      List (Action J)
      → Outcome (Manager J × List (Action J))
      → Outcome (Manager J × List (Action J))
  after es (done (m, fs)) = done (m, es ++ fs)
  after es thrown = thrown
  after es deadlock = deadlock

  -- One call after the other; an exception or a lock that is never granted ends the sequence.
  abbrev pub and_then :
      Outcome (Manager J × List (Action J))
      → (Manager J → Outcome (Manager J × List (Action J)))
      → Outcome (Manager J × List (Action J))
  and_then (done (m, es)) next = after es (next m)
  and_then thrown next = thrown
  and_then deadlock next = deadlock

module _ {J : Type 0} ⦃ops : JsonOps J⦄ where
  -- `for (loc : locations) locations.push_back(loc.get<std::string>())`
  unfoldable pub all_texts : List J → Option (List String)
  all_texts [] = some []
  all_texts (v ∷ vs) = do text ← ops.as_text v; texts ← all_texts vs; some (text ∷ texts)

  unfoldable pub location_check :
      Manager J → String → IpcMessage J → Outcome (Manager J × List (Action J))
  unfolding reading with_router
  location_check m client_id msg = reading (value_text msg.payload "location" "") (λ location_name.
      reading (value_integer msg.payload "instance" (pos 1)) (λ instance_no.
        let (r, es, id) = route_location_check (router m) client_id location_name instance_no in
        done (with_router m r, all_routed es)))

  unfoldable pub location_scout :
      Manager J → String → IpcMessage J → Outcome (Manager J × List (Action J))
  unfolding reading with_router all_texts
  location_scout m client_id msg =
      reading (all_texts (array_at msg.payload "locations")) (λ locations.
        let (r, es, ids) = route_location_scouts (router m) client_id locations false in
        done (with_router m r, all_routed es))

  unfoldable pub result_of_message : String → IpcMessage J → Option ActionResult
  result_of_message client_id msg = do
    item_id ← value_integer msg.payload "item_id" (pos 0)
    item_name ← value_text msg.payload "item_name" ""
    success ← value_boolean msg.payload "success" false
    error ← value_text msg.payload "error" ""
    some (record {
      mod_id = client_id;
      item_id = item_id;
      item_name = item_name;
      success = success;
      error = error;
    })

  unfoldable pub action_result :
      Manager J → String → IpcMessage J → Outcome (Manager J × List (Action J))
  unfolding reading with_router result_of_message
  action_result m client_id msg =
      reading (result_of_message client_id msg)
        (λ result. done (with_router m (handle_action_result (router m) result), []))

  -- The mod and version of a registration; the version is only logged.
  unfoldable pub register_message :
      Bool → Manager J → IpcMessage J → Outcome (Manager J × List (Action J))
  unfolding reading register_mod
  register_message held m msg = reading (value_text msg.payload "mod_id" "") (λ mod_id.
      reading (value_text msg.payload "version" "1.0.0") (λ version.
        elim (register_mod held m mod_id) [
          | done (m', es, ok) ↦ done (m', es)
          | thrown ↦ thrown
          | deadlock ↦ deadlock
        ]))

  unfoldable pub log_message : Manager J → IpcMessage J → Outcome (Manager J × List (Action J))
  unfolding reading
  log_message m msg =
      reading (value_text msg.payload "level" "info")
        (λ level. reading (value_text msg.payload "message" "") (λ message. done (m, [])))

  -- The commands of the priority clients that have a message type of their own.
  unfoldable pub priority_command :
      String
      → Manager J
      → Outcome (Manager J × List (Action J))
      → Outcome (Manager J × List (Action J))
  priority_command client_id m command =
      if is_priority_client client_id then command else done (m, [])

  unfoldable pub handle_ipc_message :
      Bool → Manager J → Surroundings → IpcMessage J → Outcome (Manager J × List (Action J))
  unfolding register_message location_check location_scout action_result log_message
      priority_command cmd_restart cmd_resync cmd_reconnect handle_command
  handle_ipc_message held m s msg =
      let client_id = msg.source in
      if str_eq msg.type "register"
      then register_message held m msg
      else if str_eq msg.type "location_check"
      then location_check m client_id msg
      else if str_eq msg.type "location_scout"
      then location_scout m client_id msg
      else if str_eq msg.type "action_result"
      then action_result m client_id msg
      else if str_eq msg.type "log"
      then log_message m msg
      else if str_eq msg.type "cmd_restart"
      then priority_command client_id m (cmd_restart held m s.now)
      else if str_eq msg.type "cmd_resync"
      then priority_command client_id m (cmd_resync held m s.now)
      else if str_eq msg.type "cmd_reconnect"
      then priority_command client_id m (cmd_reconnect held m s.now)
      else if str_eq msg.type "command"
      then handle_command held m s client_id msg
      else done (m, [])

  unfoldable pub handle_framework_event :
      Manager J → Surroundings → FrameworkEvent → Manager J × List (Action J)
  handle_framework_event m s (item_received item_id item_name sender) =
      let es = (route_item_receipt (router m) s.now item_id item_name sender).0 in
      let session = (increment_received_item_index m.session).0 in
      (record m { session = session }, all_routed es ++ saved session.state ∷ [])
  handle_framework_event m s (lifecycle state message) = elim state [
    | error_state ↦ transition_to_unlocked m s.now error_state message
    | _ ↦ (m, [])
  ]
  handle_framework_event m s (failure code message details) =
      (m, all_routed (broadcast_error (router m) code message details))
  handle_framework_event m s (ap_message type message) =
      (m, all_routed (broadcast_ap_message (router m) type message))
  handle_framework_event m s other = (m, [])

  unfoldable pub process_events :
      Manager J → Surroundings → List FrameworkEvent → Manager J × List (Action J)
  unfolding handle_framework_event
  process_events m s [] = (m, [])
  process_events m s (event ∷ events) =
      let first = handle_framework_event m s event in
      let rest = process_events first.0 s events in (rest.0, first.1 ++ rest.1)

  -- `ipc_server_->poll()`: the messages that came in, in order.
  unfoldable pub poll :
      Bool → Manager J → Surroundings → List (IpcMessage J) → Outcome (Manager J × List (Action J))
  unfolding handle_ipc_message
  poll held m s [] = done (m, [])
  poll held m s (msg ∷ msgs) =
      and_then (handle_ipc_message held m s msg) (λ next. poll held next s msgs)

  -- Whether an exception exception_left a state handler.
  unfoldable pub exception_left : List (Action J) → Bool
  exception_left (threw ∷ es) = true
  exception_left es = false

  -- `update`, which holds the mutex from its first line to its last. The events are none while the
  -- polling thread does not run.
  unfoldable pub update :
      Manager J
      → Surroundings
      → List (IpcMessage J)
      → List FrameworkEvent
      → Outcome (Manager J × List (Action J))
  unfolding poll process_events exception_left
  update m s msgs events = and_then (poll true m s msgs) (λ m1.
      let (m2, fs) = process_events m1 s events in
      let (m3, gs) = handle_state m2 s in if exception_left gs then thrown else done (m3, fs ++ gs))
