-- ===== src/ClientManager.antt =====
-- APClientLib/src/ap_client_manager.cpp: the state of a client mod, its two configuration files, its
-- log and its calls of the IPC client. Folders, files and the Lua state are what the calls get.
pub mod Settings
use Prim.Native.String.{◌++◌ as append_text}
use apf_ue4ss.Prelude.{
  ℕ, ltb, String, Bool, true, false, not, ◌&&◌, ◌||◌, Option, none, some, List, [], ◌∷◌, ◌++◌,
  if◌then◌else◌,
}
use apf_ue4ss.Prelude.Text.{str_eq, is_empty}
use apf_ue4ss.Types.Json.{JsonOps, value_text, value_boolean}
use apf_ue4ss.Types.Message.{IpcMessage}

-- `ClientLogLevel` of ap_client_types.h.
pub data ClientLogLevel : Type 0 where
  trace debug info warn error : ClientLogLevel

unfoldable pub client_log_level_to_string : ClientLogLevel → String
client_log_level_to_string trace = "trace"
client_log_level_to_string debug = "debug"
client_log_level_to_string info = "info"
client_log_level_to_string warn = "warn"
client_log_level_to_string error = "error"

unfoldable pub client_log_level_from_string : String → ClientLogLevel
client_log_level_from_string str =
    if str_eq str "trace"
    then trace
    else if str_eq str "debug"
    then debug
    else if str_eq str "info"
    then info
    else if str_eq str "warn" || str_eq str "warning"
    then warn
    else if str_eq str "error"
    then error
    else info

-- `static_cast<int>(level)`.
unfoldable pub level_value : ClientLogLevel → ℕ
level_value trace = 0
level_value debug = 1
level_value info = 2
level_value warn = 3
level_value error = 4

unfoldable pub client_log_level_priority : String → ℕ
unfolding level_value client_log_level_from_string
client_log_level_priority level = level_value (client_log_level_from_string level)

pub record LoggingConfig : Type 0 where
  pub level : String
  pub file : String
  pub console : Bool

pub record ClientFrameworkConfig : Type 0 where
  pub game_name : String
  pub version : String
  pub logging : LoggingConfig
  pub loaded : Bool

pub record ClientManager : Type 0 where
  pub has_lua : Bool
  pub mod_id : String
  pub mod_version : String
  pub has_mod_folder : Bool
  pub framework_config : ClientFrameworkConfig
  pub current_lifecycle_state : String
  pub has_ipc_client : Bool
  pub has_action_executor : Bool
  pub log_open : Bool
  pub initialized : Bool

-- The lines that are logged, and the calls of the IPC client.
pub data ClientAction (J : Type 0) : Type 0 where
  to_file to_console : String → ClientAction J
  disconnects polls : ClientAction J
  connects : String → ClientAction J
  sends : IpcMessage J → ClientAction J

-- A state that is given is cached.
unfoldable pub update_lua_state : ClientManager → Bool → ClientManager
update_lua_state m lua = if lua then record m { has_lua = true } else m

module _ {J : Type 0} ⦃ops : JsonOps J⦄ where
  -- The `logging` section: each assignment stays if a later read throws, which is the false.
  unfoldable pub load_logging : LoggingConfig → J → LoggingConfig × Bool
  unfolding value_text value_boolean
  load_logging c logging = elim (value_text logging "level" "info") [
    | none ↦ (c, false)
    | some level ↦ elim (value_text logging "file" "ap_framework.log") [
      | none ↦ (record c { level = level }, false)
      | some file ↦ elim (value_boolean logging "console" true) [
        | none ↦ (record c { level = level; file = file }, false)
        | some console ↦ (record { level = level; file = file; console = console }, true)
      ]
    ]
  ]

  unfoldable pub load_section : LoggingConfig → J → LoggingConfig × Bool
  unfolding load_logging
  load_section c j = elim (ops.member j "logging") [
    | none ↦ (c, true)
    | some logging ↦ load_logging c logging
  ]

  -- The assignments of the `try` of `load_framework_config`, on the parsed file.
  unfoldable pub read_framework_config : ClientFrameworkConfig → J → ClientFrameworkConfig × Bool
  unfolding value_text load_section
  read_framework_config c j = elim (value_text j "game_name" "UnknownGame") [
    | none ↦ (c, false)
    | some game_name ↦ elim (value_text j "version" "1.0.0") [
      | none ↦ (record c { game_name = game_name }, false)
      | some version ↦
          let section = load_section c.logging j in
          (
            record {
              game_name = game_name;
              version = version;
              logging = section.0;
              loaded = if section.1 then true else c.loaded;
            },
            section.1,
          )
    ]
  ]

  -- The file is none if the folder or the file is missing or the file is empty, and holds none if
  -- it is no JSON; `opens` is whether the log file can be opened.
  unfoldable pub load_framework_config :
      ClientManager → Option (Option J) → Bool → ClientManager × Bool
  unfolding read_framework_config
  load_framework_config m none opens = (m, false)
  load_framework_config m (some none) opens = (m, false)
  load_framework_config m (some (some j)) opens =
      let (config, ok) = read_framework_config m.framework_config j in
      (
        record m {
          framework_config = config;
          log_open = if ok && not (is_empty config.logging.file) then opens else m.log_open;
        },
        ok,
      )

  unfoldable pub load_mod_manifest : ClientManager → Option (Option J) → ClientManager × Bool
  unfolding value_text
  load_mod_manifest m none = (m, false)
  load_mod_manifest m (some none) = (m, false)
  load_mod_manifest m (some (some j)) =
      if not m.has_mod_folder then (m, false) else elim (value_text j "mod_id" "") [
        | none ↦ (m, false)
        | some mod_id ↦ elim (value_text j "version" "1.0.0") [
          | none ↦ (record m { mod_id = mod_id }, false)
          | some version ↦
              (record m { mod_id = mod_id; mod_version = version }, not (is_empty mod_id))
        ]
      ]

  unfoldable pub log : ClientManager → String → String → List (ClientAction J)
  unfolding client_log_level_priority
  log m level message =
      let formatted =
        append_text "[" (
          append_text level
            (append_text "] [" (append_text m.mod_id (append_text "] " message)))) in
      if ltb (client_log_level_priority level)
        (client_log_level_priority m.framework_config.logging.level)
      then []
      else (if m.log_open then to_file formatted ∷ [] else [])
        ++ (if m.framework_config.logging.console && m.has_lua
            then to_console formatted ∷ []
            else [])

  -- `init`: `lua` is whether a Lua state is given, `folder` whether the folder of the mod is found.
  unfoldable pub init :
      ClientManager
      → Bool
      → Bool
      → Option (Option J)
      → Option (Option J)
      → Bool
      → ClientManager × List (ClientAction J)
  unfolding update_lua_state load_framework_config load_mod_manifest log
  init m lua folder config_file manifest_file opens =
      let m1 = record (update_lua_state m lua) { has_mod_folder = folder } in
      let m2 = (load_framework_config m1 config_file opens).0 in
      let m3 = (load_mod_manifest m2 manifest_file).0 in
      let m4 = record m3 {
        has_ipc_client = true;
        has_action_executor = true;
        initialized = true;
      } in
      if m.initialized
      then (update_lua_state m lua, [])
      else (m4, log m4 "trace" (append_text "APClientManager initialized for mod: " m4.mod_id))

  unfoldable pub update : ClientManager → Bool → ClientManager × List (ClientAction J)
  unfolding update_lua_state
  update m lua = (update_lua_state m lua, (if m.has_ipc_client then polls ∷ [] else []))

  unfoldable pub shutdown : ClientManager → ClientManager × List (ClientAction J)
  unfolding log
  shutdown m = (
    record m { log_open = false; current_lifecycle_state = "UNINITIALIZED"; initialized = false },
    log m "trace" "APClientManager shutting down"
        ++ (if m.has_ipc_client then disconnects ∷ [] else []),
  )

  -- `is_connected` is what the IPC client answers.
  unfoldable pub notify_framework_of_error :
      ClientManager → Bool → String → String → List (ClientAction J)
  notify_framework_of_error m is_connected error_type details =
      if not m.has_ipc_client || not is_connected
      then []
      else sends (record {
        type = "callback_error";
        source = m.mod_id;
        target = "framework";
        payload = ops.object (
            ("error_type", ops.text error_type)
            ∷ ("details", ops.text details)
            ∷ ("mod_id", ops.text m.mod_id)
            ∷ []);
      })
        ∷ []

  unfoldable pub connect :
      ClientManager → Option (Option J) → Bool → ClientManager × List (ClientAction J)
  unfolding load_framework_config
  connect m config_file opens =
      let m1 =
        if m.framework_config.loaded then m else (load_framework_config m config_file opens).0 in
      if m.has_ipc_client then (m1, connects m1.framework_config.game_name ∷ []) else (m, [])

  unfoldable pub send_message : ClientManager → Bool → IpcMessage J → List (ClientAction J)
  send_message m is_connected msg =
      if not m.has_ipc_client || not is_connected then [] else sends msg ∷ []
