-- ===== src/Manager.antt =====
-- APFrameworkCore/src/ap_manager.cpp, class `APManager::Impl`: the lifecycle. The parts that the
-- router points to (capabilities and session) stand in the manager, and `router` is the view that
-- `init` wires up. Effects leave as a list, in order.
pub mod Lifecycle
pub mod Messages
pub mod Start
use apf_ue4ss.Prelude.{
  ℕ, ◌+◌, ◌-◌, ◌/◌, String, Bool, true, false, not, Option, none, some, List, [], ◌∷◌, ◌++◌, map,
  fold, all, leb, if◌then◌else◌,
}
use apf_ue4ss.Prelude.Int.{ℤ, pos, ◌+ℤ◌, ltb_ℤ}
use apf_ue4ss.Prelude.Text.{is_empty}
use apf_ue4ss.Types.{SessionState, TimeoutConfig, ApServerConfig}
use apf_ue4ss.Types.Enums.{
  LifecycleState, uninitialized, initialization, discovery, validation, generation,
  priority_registration, registration, connecting, syncing, active, resyncing, error_state,
}
use apf_ue4ss.Types.Json.{JsonOps}
use apf_ue4ss.Session.{
  StateManager, new, validate_checksum, set_checksum, set_game_name, set_slot_name, touch,
}
use apf_ue4ss.Session.File.{Reading, Loading, returned, escaped, after_read}
use apf_ue4ss.Registry.{
  Registry, DirEntry, discover_manifests, get_enabled_manifests, get_priority_clients,
  is_registered, all_registered,
}
use apf_ue4ss.Capabilities.{Capabilities, assign_ids}
use apf_ue4ss.Capabilities as caps
use apf_ue4ss.Registry as reg
use apf_ue4ss.Capabilities.Validate.{validate}
use apf_ue4ss.Capabilities.Checksum.{compute_checksum}
use apf_ue4ss.Router.{Router, Effect, broadcast_lifecycle, broadcast_error}

-- What the manager reads of the configuration.
pub record Config : Type 0 where
  pub game_name : String
  pub id_base : ℤ
  pub timeouts : TimeoutConfig
  pub ap_server : ApServerConfig

-- What one call of `update` finds: the steady clock in milliseconds, the system clock, whether the
-- slot is connected, the number of IPC clients, and what `load_state` would make of
-- the session file (`json_error` also if it is missing, empty or no JSON).
pub record Surroundings : Type 0 where
  pub now : ℕ
  pub wall : ℕ
  pub slot_connected : Bool
  pub client_count : ℕ
  pub file : Reading SessionState

-- `connected` is `ap_client_->connect` (its uuid, a time stamp, is left out); `wrote_config` is
-- `write_capabilities_config_default`; behind `threw`, the last action, an exception leaves `update`.
pub data Action (J : Type 0) : Type 0 where
  routed : Effect J → Action J
  connected : String → ℤ → String → Action J
  polling_started disconnected playing threw : Action J
  saved : SessionState → Action J
  wrote_config : String → String → Action J

-- `last_save` is the static variable of `handle_active`, `none` before its first call.
pub record Manager (J : Type 0) : Type 0 where
  pub current_state : LifecycleState
  pub state_entered_at : ℕ
  pub config : Config
  pub registry : Registry J
  pub capabilities : Capabilities J
  pub session : StateManager
  pub pending_scouts : List (ℤ × String)
  pub state_loaded : Bool
  pub reconnect_attempted : Bool
  pub last_save : Option ℕ

-- `elapsed_ms >= timeout`
unfoldable pub timed_out : ℕ → ℤ → Bool
timed_out elapsed_ms timeout = not (ltb_ℤ (pos elapsed_ms) timeout)

module _ {J : Type 0} where
  -- The router as `init` wires it up.
  abbrev pub router : Manager J → Router J
  router m = record {
    capabilities = some m.capabilities;
    state_manager = some m.session;
    ipc_send = true;
    ipc_broadcast = true;
    ap_location_check = true;
    ap_location_scout = true;
    pending_scouts = m.pending_scouts;
  }

  unfoldable pub start_ap_connection : Manager J → List (Action J)
  start_ap_connection m =
      let server = m.config.ap_server in
      connected server.server server.port m.config.game_name ∷ polling_started ∷ []

  -- `touch` and `save_state`, if 30 seconds have passed since the last time.
  unfoldable pub handle_active : Manager J → Surroundings → Manager J × List (Action J)
  handle_active m s =
      let session = touch m.session s.wall in
      elim m.last_save [
        | none ↦ (record m { last_save = some s.now }, [])
        | some last ↦
            if leb 30 ((s.now - last) / 1000)
            then (record m { last_save = some s.now; session = session }, saved session.state ∷ [])
            else (m, [])
      ]

  unfoldable pub all_priority_registered : Manager J → Bool
  all_priority_registered m = all (is_registered m.registry) (get_priority_clients m.registry)

module _ {J : Type 0} ⦃ops : JsonOps J⦄ where
  -- `transition_to_unlocked`, once the router is there.
  unfoldable pub transition_to_unlocked :
      Manager J → ℕ → LifecycleState → String → Manager J × List (Action J)
  transition_to_unlocked m now state message = (
    record m { current_state = state; state_entered_at = now },
    map (λ e. routed e) (broadcast_lifecycle (router m) state message),
  )

  -- A transition and what follows it.
  unfoldable pub enter :
      Manager J → ℕ → LifecycleState → String → List (Action J) → Manager J × List (Action J)
  unfolding transition_to_unlocked
  enter m now state message after =
      let next = transition_to_unlocked m now state message in (next.0, next.1 ++ after)

  unfoldable pub handle_priority_registration :
      Manager J → Surroundings → ℕ → Manager J × List (Action J)
  unfolding transition_to_unlocked timed_out all_priority_registered
  handle_priority_registration m s elapsed_ms =
      if all_priority_registered m
      then transition_to_unlocked m s.now registration "All priority clients registered"
      else if timed_out elapsed_ms m.config.timeouts.priority_registration_ms
      then transition_to_unlocked m s.now registration "Priority timeout"
      else (m, [])

  unfoldable pub handle_registration : Manager J → Surroundings → ℕ → Manager J × List (Action J)
  unfolding enter timed_out start_ap_connection
  handle_registration m s elapsed_ms =
      if all_registered m.registry
      then enter m s.now connecting "All mods registered" (start_ap_connection m)
      else if timed_out elapsed_ms m.config.timeouts.registration_ms
      then enter m s.now connecting "Registration timeout" (start_ap_connection m)
      else (m, [])

  unfoldable pub handle_connecting : Manager J → Surroundings → ℕ → Manager J × List (Action J)
  unfolding enter transition_to_unlocked timed_out
  handle_connecting m s elapsed_ms =
      if s.slot_connected
      then transition_to_unlocked m s.now syncing "Connected to AP server"
      else if timed_out elapsed_ms m.config.timeouts.connection_ms
      then enter m s.now error_state "Connection timeout" (
          map (λ e. routed e)
            (broadcast_error (router m) "CONNECTION_FAILED" "Failed to connect to AP server"
              "Connection timed out"))
      else (m, [])

  -- After `load_state`, and whether it returns: if an exception leaves it, `state_loaded_` is not set.
  unfoldable pub after_loading : Manager J → Loading → Manager J × Bool
  after_loading m (returned session ok) =
      (record m { session = session; state_loaded = true }, true)
  after_loading m (escaped session) = (record m { session = session }, false)

  -- The session that `handle_syncing` validates.
  unfoldable pub load_once : Manager J → Surroundings → Manager J × Bool
  unfolding after_read after_loading
  load_once m s =
      if m.state_loaded then (m, true) else after_loading m (after_read m.session s.file)

  unfoldable pub handle_syncing : Manager J → Surroundings → Manager J × List (Action J)
  unfolding enter load_once
  handle_syncing m s =
      let (l, loads) = load_once m s in
      let current_checksum =
        compute_checksum l.capabilities l.config.game_name l.config.ap_server.slot_name in
      if not loads
      then (l, threw ∷ [])
      else if not (validate_checksum l.session current_checksum)
      then enter l s.now error_state "Checksum mismatch" (
          map (λ e. routed e)
            (broadcast_error (router l) "CHECKSUM_MISMATCH" "Mod ecosystem changed since generation"
              "Please regenerate the AP World"))
      else (let session =
            if is_empty l.session.state.checksum
            then set_checksum l.session current_checksum
            else l.session in
          enter (record l { session = session }) s.now active "Sync complete" (playing ∷ []))

  unfoldable pub handle_resyncing : Manager J → Surroundings → ℕ → Manager J × List (Action J)
  unfolding transition_to_unlocked timed_out start_ap_connection
  handle_resyncing m s elapsed_ms =
      if s.slot_connected
      then transition_to_unlocked m s.now active "Reconnected"
      else (let started = if m.reconnect_attempted then [] else start_ap_connection m in
          let tried = record m { reconnect_attempted = true } in
          let limit = m.config.timeouts.connection_ms +ℤ m.config.timeouts.connection_ms in
          if timed_out elapsed_ms limit
          then (let next = transition_to_unlocked tried s.now error_state "Reconnection failed" in
              (next.0, started ++ next.1))
          else (tried, started))

  -- The `switch` at the end of `update`.
  unfoldable pub handle_state : Manager J → Surroundings → Manager J × List (Action J)
  unfolding handle_priority_registration handle_registration handle_connecting handle_syncing
      handle_active handle_resyncing
  handle_state m s =
      let elapsed_ms = s.now - m.state_entered_at in
      elim m.current_state [
        | priority_registration ↦ handle_priority_registration m s elapsed_ms
        | registration ↦ handle_registration m s elapsed_ms
        | connecting ↦ handle_connecting m s elapsed_ms
        | syncing ↦ handle_syncing m s
        | active ↦ handle_active m s
        | resyncing ↦ handle_resyncing m s elapsed_ms
        | error_state ↦ (m, [])
        | _ ↦ (m, [])
      ]

  -- The end of `init`, once the capabilities are known to be valid.
  unfoldable pub generate : Manager J → ℕ → String → Manager J × List (Action J)
  unfolding transition_to_unlocked
  generate m now game_name =
      let (g, es) = transition_to_unlocked m now generation "Generating capabilities" in
      let slot_name = g.config.ap_server.slot_name in
      let capabilities = assign_ids g.capabilities g.config.id_base in
      let checksum = compute_checksum capabilities game_name slot_name in
      let session =
        set_slot_name (set_game_name (set_checksum g.session checksum) game_name) slot_name in
      let ready = record g { capabilities = capabilities; session = session } in
      let written = if is_empty slot_name then [] else wrote_config slot_name game_name ∷ [] in
      let (p, fs) =
        transition_to_unlocked ready now priority_registration "Waiting for priority clients" in
      elim (get_priority_clients p.registry) [
        | [] ↦
            let (r, gs) = transition_to_unlocked p now registration "No priority clients" in
            (r, es ++ written ++ fs ++ gs)
        | ◌∷◌ _ _ ↦ (p, es ++ written ++ fs)
      ]

  -- `init`, from the configuration and the entries of the mods folder, if it is found. The change
  -- to INITIALIZATION comes before the router is there and is broadcast to nobody.
  unfoldable pub init : Config → ℕ → Option (List (DirEntry J)) → Manager J × List (Action J)
  unfolding transition_to_unlocked generate
  init config now folder =
      let game_name = if is_empty config.game_name then "APFramework" else config.game_name in
      let started : Manager J = record {
        current_state = initialization;
        state_entered_at = now;
        config = config;
        registry = reg.empty;
        capabilities = caps.empty;
        session = new;
        pending_scouts = [];
        state_loaded = false;
        reconnect_attempted = false;
        last_save = none;
      } in
      let (d, es) = transition_to_unlocked started now discovery "Scanning for mods" in
      let registry = (discover_manifests d.registry folder).0 in
      let capabilities = fold caps.add_manifest d.capabilities (get_enabled_manifests registry) in
      let (v, fs) =
        transition_to_unlocked (record d { registry = registry; capabilities = capabilities }) now
          validation "Validating capabilities" in
      if not (validate v.capabilities).valid
      then (let (e, gs) =
            transition_to_unlocked v now error_state "Capability conflicts detected" in
          (e, es ++ fs ++ gs))
      else (let (r, gs) = generate v now game_name in (r, es ++ fs ++ gs))
