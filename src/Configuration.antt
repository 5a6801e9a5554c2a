-- ===== src/Configuration.antt =====
-- The configuration: its structures in APFrameworkCore/include/ap_types.h, and reading and writing
-- in APFrameworkCore/src/ap_config.cpp. `D` is the type double.
pub mod Laws
use apf_ue4ss.Prelude.{
  String, Bool, true, false, Option, none, some, List, [], ◌∷◌, if◌then◌else◌, ◌>>=◌, ◌≡◌,
}
use apf_ue4ss.Prelude.Int.{ℤ, pos}
use apf_ue4ss.Prelude.Text.{str_eq}
use apf_ue4ss.Types.{TimeoutConfig, ApServerConfig}
use apf_ue4ss.Types.Enums.{LogLevel, trace, debug, info, warn, error, fatal}
use apf_ue4ss.Types.Json.{JsonOps}
use apf_ue4ss.Retry.{RetryConfig}

-- What the code uses of floating point numbers in nlohmann::json; `two` is 2.0.
pub record Doubles (J : Type 0) (D : Type 0) : Type 0 where
  pub two : D
  pub number : D → J
  pub as_number : J → Option D

pub record ThreadingConfig : Type 0 where
  pub polling_interval_ms : ℤ
  pub ipc_poll_interval_ms : ℤ
  pub queue_max_size : ℤ
  pub shutdown_timeout_ms : ℤ

pub record FrameworkConfig (D : Type 0) : Type 0 where
  pub id_base : ℤ
  pub game_name : String
  pub log_level : LogLevel
  pub log_file : String
  pub log_to_console : Bool
  pub timeouts : TimeoutConfig
  pub retry : RetryConfig D
  pub threading : ThreadingConfig
  pub ap_server : ApServerConfig

pub record ApConfig (D : Type 0) : Type 0 where
  pub config : FrameworkConfig D
  pub loaded : Bool
  pub loaded_path : String

-- The names of the levels in the file; other names leave the level.
unfoldable pub level_of : String → LogLevel → LogLevel
level_of level current =
    if str_eq level "trace"
    then trace
    else if str_eq level "debug"
    then debug
    else if str_eq level "info"
    then info
    else if str_eq level "warn"
    then warn
    else if str_eq level "error"
    then error
    else if str_eq level "fatal"
    then fatal
    else current

unfoldable pub level_name : LogLevel → String
level_name trace = "trace"
level_name debug = "debug"
level_name info = "info"
level_name warn = "warn"
level_name error = "error"
level_name fatal = "fatal"

module _ {J : Type 0} ⦃ops : JsonOps J⦄ where
  -- `if (j.contains(key)) { x = j[key].get<A>(); }`; `none` is the type error.
  unfoldable pub field : {A : Type 0} → (J → Option A) → J → String → A → Option A
  field read j key current = elim (ops.member j key) [ none ↦ some current | some v ↦ read v ]

  -- `if (j.contains(key) && j[key].is_object())` around the fields of a section.
  unfoldable pub section : {A : Type 0} → (J → A → Option A) → J → String → A → Option A
  section read j key current = elim (ops.member j key) [
    | none ↦ some current
    | some v ↦ if ops.is_object v then read v current else some current
  ]

  unfoldable pub read_timeouts : J → TimeoutConfig → Option TimeoutConfig
  unfolding field
  read_timeouts t c = do
    a ← field ops.as_integer t "priority_registration_ms" c.priority_registration_ms
    b ← field ops.as_integer t "registration_ms" c.registration_ms
    d ← field ops.as_integer t "connection_ms" c.connection_ms
    e ← field ops.as_integer t "ipc_message_ms" c.ipc_message_ms
    f ← field ops.as_integer t "action_execution_ms" c.action_execution_ms
    some (record {
      priority_registration_ms = a;
      registration_ms = b;
      connection_ms = d;
      ipc_message_ms = e;
      action_execution_ms = f;
    })

  unfoldable pub timeouts_json : TimeoutConfig → J
  timeouts_json c = ops.object (
      ("priority_registration_ms", ops.integer c.priority_registration_ms)
      ∷ ("registration_ms", ops.integer c.registration_ms)
      ∷ ("connection_ms", ops.integer c.connection_ms)
      ∷ ("ipc_message_ms", ops.integer c.ipc_message_ms)
      ∷ ("action_execution_ms", ops.integer c.action_execution_ms)
      ∷ [])

  unfoldable pub read_threading : J → ThreadingConfig → Option ThreadingConfig
  unfolding field
  read_threading t c = do
    a ← field ops.as_integer t "polling_interval_ms" c.polling_interval_ms
    b ← field ops.as_integer t "ipc_poll_interval_ms" c.ipc_poll_interval_ms
    d ← field ops.as_integer t "queue_max_size" c.queue_max_size
    e ← field ops.as_integer t "shutdown_timeout_ms" c.shutdown_timeout_ms
    some (record {
      polling_interval_ms = a;
      ipc_poll_interval_ms = b;
      queue_max_size = d;
      shutdown_timeout_ms = e;
    })

  unfoldable pub threading_json : ThreadingConfig → J
  threading_json c = ops.object (
      ("polling_interval_ms", ops.integer c.polling_interval_ms)
      ∷ ("ipc_poll_interval_ms", ops.integer c.ipc_poll_interval_ms)
      ∷ ("queue_max_size", ops.integer c.queue_max_size)
      ∷ ("shutdown_timeout_ms", ops.integer c.shutdown_timeout_ms)
      ∷ [])

  unfoldable pub read_server : J → ApServerConfig → Option ApServerConfig
  unfolding field
  read_server t c = do
    a ← field ops.as_text t "server" c.server
    b ← field ops.as_integer t "port" c.port
    d ← field ops.as_text t "slot_name" c.slot_name
    e ← field ops.as_text t "password" c.password
    f ← field ops.as_boolean t "auto_reconnect" c.auto_reconnect
    some (record { server = a; port = b; slot_name = d; password = e; auto_reconnect = f })

  unfoldable pub server_json : ApServerConfig → J
  server_json c = ops.object (
      ("server", ops.text c.server)
      ∷ ("port", ops.integer c.port)
      ∷ ("slot_name", ops.text c.slot_name)
      ∷ ("password", ops.text c.password)
      ∷ ("auto_reconnect", ops.boolean c.auto_reconnect)
      ∷ [])

module _ {J : Type 0} ⦃ops : JsonOps J⦄ {D : Type 0} (doubles : Doubles J D) where
  unfoldable pub read_retry : J → RetryConfig D → Option (RetryConfig D)
  unfolding field
  read_retry t c = do
    a ← field ops.as_integer t "max_retries" c.max_retries
    b ← field ops.as_integer t "initial_delay_ms" c.initial_delay_ms
    d ← field doubles.as_number t "backoff_multiplier" c.backoff_multiplier
    e ← field ops.as_integer t "max_delay_ms" c.max_delay_ms
    some
        (record { max_retries = a; initial_delay_ms = b; backoff_multiplier = d; max_delay_ms = e })

  unfoldable pub retry_json : RetryConfig D → J
  retry_json c = ops.object (
      ("max_retries", ops.integer c.max_retries)
      ∷ ("initial_delay_ms", ops.integer c.initial_delay_ms)
      ∷ ("backoff_multiplier", doubles.number c.backoff_multiplier)
      ∷ ("max_delay_ms", ops.integer c.max_delay_ms)
      ∷ [])

  -- The initializers of the members of the structures.
  abbrev pub defaults : FrameworkConfig D
  defaults = record {
    id_base = pos 6942067;
    game_name = "";
    log_level = info;
    log_file = "ap_framework.log";
    log_to_console = true;
    timeouts = record {
      priority_registration_ms = pos 30000;
      registration_ms = pos 60000;
      connection_ms = pos 30000;
      ipc_message_ms = pos 5000;
      action_execution_ms = pos 5000;
    };
    retry = record {
      max_retries = pos 3;
      initial_delay_ms = pos 1000;
      backoff_multiplier = doubles.two;
      max_delay_ms = pos 10000;
    };
    threading = record {
      polling_interval_ms = pos 16;
      ipc_poll_interval_ms = pos 10;
      queue_max_size = pos 1000;
      shutdown_timeout_ms = pos 5000;
    };
    ap_server = record {
      server = "localhost";
      port = pos 38281;
      slot_name = "";
      password = "";
      auto_reconnect = true;
    };
  }

  unfoldable pub reset_to_defaults : ApConfig D → ApConfig D
  reset_to_defaults c = record c { config = defaults }

  -- The body of the `try` of `load`, on the parsed file.
  unfoldable pub read_config : J → FrameworkConfig D → Option (FrameworkConfig D)
  unfolding field section read_timeouts read_retry read_threading read_server level_of
  read_config j c = do
    id_base ← field ops.as_integer j "id_base" c.id_base
    game_name ← field ops.as_text j "game_name" c.game_name
    level ← field ops.as_text j "log_level" ""
    log_file ← field ops.as_text j "log_file" c.log_file
    log_to_console ← field ops.as_boolean j "log_to_console" c.log_to_console
    timeouts ← section read_timeouts j "timeouts" c.timeouts
    retry ← section read_retry j "retry" c.retry
    threading ← section read_threading j "threading" c.threading
    ap_server ← section read_server j "ap_server" c.ap_server
    some (record {
      id_base = id_base;
      game_name = game_name;
      log_level = level_of level c.log_level;
      log_file = log_file;
      log_to_console = log_to_console;
      timeouts = timeouts;
      retry = retry;
      threading = threading;
      ap_server = ap_server;
    })

  -- `load`: the file is none if it is missing or empty, and holds none if it is no JSON.
  unfoldable pub load : ApConfig D → String → Option (Option J) → ApConfig D × Bool
  unfolding reset_to_defaults read_config
  load c path none = (record (reset_to_defaults c) { loaded = true; loaded_path = path }, true)
  load c path (some none) =
      (record (reset_to_defaults c) { loaded = true; loaded_path = path }, false)
  load c path (some (some j)) = elim (read_config j (reset_to_defaults c).config) [
    | none ↦ (record (reset_to_defaults c) { loaded = true; loaded_path = path }, false)
    | some config ↦ (record c { config = config; loaded = true; loaded_path = path }, true)
  ]

  -- The document that `save` writes.
  unfoldable pub config_json : FrameworkConfig D → J
  unfolding level_name timeouts_json retry_json threading_json server_json
  config_json c = ops.object (
      ("id_base", ops.integer c.id_base)
      ∷ ("game_name", ops.text c.game_name)
      ∷ ("log_level", ops.text (level_name c.log_level))
      ∷ ("log_file", ops.text c.log_file)
      ∷ ("log_to_console", ops.boolean c.log_to_console)
      ∷ ("timeouts", timeouts_json c.timeouts)
      ∷ ("retry", retry_json c.retry)
      ∷ ("threading", threading_json c.threading)
      ∷ ("ap_server", server_json c.ap_server)
      ∷ [])
