-- ===== src/Router.antt =====
-- APFrameworkCore/src/ap_message_router.cpp, class `APMessageRouter::Impl`. A callback is known by
-- whether it is set; what is handed to it is the router's output, a list of effects in order. The
-- capabilities and the session state that the router points to stand in its state.
pub mod Execution
pub mod Items
pub mod Checks
pub mod Scouts
use apf_ue4ss.Prelude.{
  ℕ, String, Bool, true, false, not, ◌&&◌, Option, none, some, List, [], ◌∷◌, ◌++◌, map, filter,
  if◌then◌else◌,
}
use apf_ue4ss.Prelude.Int.{ℤ, pos, eqb_ℤ}
use apf_ue4ss.Prelude.Text.{str_eq, is_empty}
use apf_ue4ss.Prelude.Dict.{string_eq, int_eq, put}
use apf_ue4ss.Types.{ActionArg, ItemOwnership, PendingAction, ActionResult}
use apf_ue4ss.Types.Enums.{LifecycleState, lifecycle_state_to_string, arg_type_to_string}
use apf_ue4ss.Types.Json.{JsonOps}
use apf_ue4ss.Types.Message.{IpcMessage}
use apf_ue4ss.Capabilities.{Capabilities, get_item_by_id, get_location_id}
use apf_ue4ss.Session.{
  StateManager, get_item_progression_count, is_location_checked, add_checked_location,
  increment_item_progression_count,
}

pub data Effect (J : Type 0) : Type 0 where
  sent : String → IpcMessage J → Effect J
  broadcasted : IpcMessage J → Effect J
  checks : List ℤ → Effect J
  scouts : List ℤ → Bool → Effect J

-- `ScoutResult` of ap_client.h.
pub record ScoutResult : Type 0 where
  pub location_id : ℤ
  pub item_id : ℤ
  pub player_id : ℤ
  pub item_name : String
  pub player_name : String

-- `none` is the null pointer.
pub record Router (J : Type 0) : Type 0 where
  pub capabilities : Option (Capabilities J)
  pub state_manager : Option StateManager
  pub ipc_send : Bool
  pub ipc_broadcast : Bool
  pub ap_location_check : Bool
  pub ap_location_scout : Bool
  pub pending_scouts : List (ℤ × String)

-- The ids of the list that the session does not hold, which are added on the way.
unfoldable pub new_checks : StateManager → List ℤ → StateManager × List ℤ
new_checks m [] = (m, [])
new_checks m (id ∷ ids) =
    if is_location_checked m id
    then new_checks m ids
    else (let rest = new_checks (add_checked_location m id) ids in (rest.0, id ∷ rest.1))

-- `pending_scouts_[id] = mod_id` for each id.
unfoldable pub await_scouts : String → List ℤ → List (ℤ × String) → List (ℤ × String)
await_scouts mod_id [] pending = pending
await_scouts mod_id (id ∷ ids) pending = await_scouts mod_id ids (put id mod_id pending)

unfoldable pub none_left : List ℤ → Bool
none_left [] = true
none_left (id ∷ ids) = false

module _ {J : Type 0} where
  -- The count that `<GET_PROGRESSION_COUNT>` stands for.
  unfoldable pub progression_count : Router J → ℤ → ℤ
  progression_count r id = elim r.state_manager [
    | none ↦ pos 0
    | some m ↦ get_item_progression_count m id
  ]

  -- `false` for the session that is not there.
  unfoldable pub already_checked : Router J → ℤ → Bool
  already_checked r id = elim r.state_manager [ none ↦ false | some m ↦ is_location_checked m id ]

  unfoldable pub mark_checked : Router J → ℤ → Router J
  mark_checked r id = elim r.state_manager [
    | none ↦ r
    | some m ↦ record r { state_manager = some (add_checked_location m id) }
  ]

  unfoldable pub route_location_check :
      Router J → String → String → ℤ → Router J × List (Effect J) × ℤ
  unfolding already_checked mark_checked
  route_location_check r mod_id location_name instance_no = elim r.capabilities [
    | none ↦ (r, [], pos 0)
    | some capabilities ↦
        let location_id = get_location_id capabilities mod_id location_name instance_no in
        if eqb_ℤ location_id (pos 0)
        then (r, [], pos 0)
        else if already_checked r location_id
        then (r, [], pos 0)
        else (
          mark_checked r location_id,
          if r.ap_location_check then checks (location_id ∷ []) ∷ [] else [],
          location_id,
        )
  ]

  unfoldable pub route_location_checks : Router J → List ℤ → Router J × List (Effect J)
  unfolding new_checks none_left
  route_location_checks r location_ids = elim r.state_manager [
    | none ↦ (r, [])
    | some m ↦
        let next = new_checks m location_ids in
        (
          record r { state_manager = some next.0 },
          if not (none_left next.1) && r.ap_location_check then checks next.1 ∷ [] else [],
        )
  ]

  -- The ids of the names that the capabilities know, at the first instance.
  unfoldable pub scout_ids : Capabilities J → String → List String → List ℤ
  scout_ids capabilities mod_id [] = []
  scout_ids capabilities mod_id (name ∷ names) =
      let rest = scout_ids capabilities mod_id names in
      let id = get_location_id capabilities mod_id name (pos 1) in
      if eqb_ℤ id (pos 0) then rest else id ∷ rest

  unfoldable pub route_location_scouts :
      Router J → String → List String → Bool → Router J × List (Effect J) × List ℤ
  unfolding scout_ids await_scouts none_left
  route_location_scouts r mod_id location_names create_hints = elim r.capabilities [
    | none ↦ (r, [], [])
    | some capabilities ↦
        let location_ids = scout_ids capabilities mod_id location_names in
        if not (none_left location_ids) && r.ap_location_scout
        then (
          record r { pending_scouts = await_scouts mod_id location_ids r.pending_scouts },
          scouts location_ids create_hints ∷ [],
          location_ids,
        )
        else (r, [], location_ids)
  ]

  unfoldable pub handle_action_result : Router J → ActionResult → Router J
  handle_action_result r result = elim r.state_manager [
    | none ↦ r
    | some m ↦
        if result.success && not (eqb_ℤ result.item_id (pos 0))
        then record r { state_manager = some (increment_item_progression_count m result.item_id).0 }
        else r
  ]

module _ {J : Type 0} ⦃ops : JsonOps J⦄ where
  -- The value of one argument, with the placeholders filled in.
  unfoldable pub resolve_value : Router J → ItemOwnership J → J → J
  unfolding progression_count
  resolve_value r item v = elim (ops.as_text v) [
    | none ↦ v
    | some val ↦
        if str_eq val "<GET_ITEM_ID>"
        then ops.integer item.item_id
        else if str_eq val "<GET_ITEM_NAME>"
        then ops.text item.item_name
        else if str_eq val "<GET_PROGRESSION_COUNT>"
        then ops.integer (progression_count r item.item_id)
        else v
  ]

  unfoldable pub resolve_argument : Router J → ItemOwnership J → ActionArg J → ActionArg J
  unfolding resolve_value
  resolve_argument r item arg = record arg { value = resolve_value r item arg.value }

  unfoldable pub resolve_arguments : Router J → ItemOwnership J → List (ActionArg J)
  unfolding resolve_argument
  resolve_arguments r item = map (resolve_argument r item) item.args

  unfoldable pub arg_json : ActionArg J → J
  arg_json arg = ops.object (
      ("name", ops.text arg.name)
      ∷ ("type", ops.text (arg_type_to_string arg.type))
      ∷ ("value", arg.value)
      ∷ [])

  -- The EXECUTE_ACTION message.
  unfoldable pub execute_action :
      ItemOwnership J → ℤ → String → String → List (ActionArg J) → IpcMessage J
  unfolding arg_json
  execute_action item item_id item_name sender_name args = record {
    type = "execute_action";
    source = "framework";
    target = item.mod_id;
    payload = ops.object (
        ("item_id", ops.integer item_id)
        ∷ ("item_name", ops.text item_name)
        ∷ ("action", ops.text item.action)
        ∷ ("args", ops.array (map arg_json args))
        ∷ ("sender", ops.text sender_name)
        ∷ []);
  }

  -- `now` is the steady clock.
  unfoldable pub route_item_receipt :
      Router J → ℕ → ℤ → String → String → List (Effect J) × Option (PendingAction J)
  unfolding resolve_arguments execute_action
  route_item_receipt r now item_id item_name sender_name = elim r.capabilities [
    | none ↦ ([], none)
    | some capabilities ↦ elim (get_item_by_id capabilities item_id) [
      | none ↦ ([], none)
      | some item ↦
          if is_empty item.action
          then ([], none)
          else (let args = resolve_arguments r item in
              let msg = execute_action item item_id item_name sender_name args in
              (
                if r.ipc_send then sent item.mod_id msg ∷ [] else [],
                some (record {
                  mod_id = item.mod_id;
                  item_id = item_id;
                  item_name = item_name;
                  action = item.action;
                  resolved_args = args;
                  started_at = now;
                }),
              ))
    ]
  ]

  unfoldable pub scout_json : ScoutResult → J
  scout_json result = ops.object (
      ("location_id", ops.integer result.location_id)
      ∷ ("item_id", ops.integer result.item_id)
      ∷ ("item_name", ops.text result.item_name)
      ∷ ("player_name", ops.text result.player_name)
      ∷ [])

  unfoldable pub route_scout_results : Router J → String → List ScoutResult → List (Effect J)
  unfolding scout_json
  route_scout_results r mod_id [] = []
  route_scout_results r mod_id (result ∷ results) =
      if r.ipc_send
      then sent mod_id (record {
        type = "scout_results";
        source = "framework";
        target = mod_id;
        payload = ops.object (("results", ops.array (map scout_json (result ∷ results))) ∷ []);
      })
        ∷ []
      else []

  -- A message of the framework to all clients, if there is a callback for it.
  unfoldable pub broadcast : Router J → String → List (String × J) → List (Effect J)
  broadcast r type payload =
      if r.ipc_broadcast
      then broadcasted (record {
        type = type;
        source = "framework";
        target = "broadcast";
        payload = ops.object payload;
      })
        ∷ []
      else []

  unfoldable pub broadcast_lifecycle : Router J → LifecycleState → String → List (Effect J)
  unfolding broadcast
  broadcast_lifecycle r state message =
      broadcast r "lifecycle"
        (("state", ops.text (lifecycle_state_to_string state)) ∷ ("message", ops.text message) ∷ [])

  unfoldable pub broadcast_error : Router J → String → String → String → List (Effect J)
  unfolding broadcast
  broadcast_error r code message details =
      broadcast r "error" (
        ("code", ops.text code)
        ∷ ("message", ops.text message)
        ∷ ("details", ops.text details)
        ∷ [])

  unfoldable pub broadcast_ap_message : Router J → String → String → List (Effect J)
  unfolding broadcast
  broadcast_ap_message r type message =
      broadcast r "ap_message" (("type", ops.text type) ∷ ("message", ops.text message) ∷ [])
