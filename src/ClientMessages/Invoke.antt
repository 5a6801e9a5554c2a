-- ===== src/ClientMessages/Invoke.antt =====
-- APClientLib/src/main.cpp: the calls of the callbacks of the mod, and what is sent when one fails.
-- The callbacks, which are Lua functions, come in as values: whether one is registered, and how its
-- call ends. The log leaves out messages below the configured level; the effects hold what is handed
-- to it, before that.
use Prim.Native.String.{◌++◌ as append_text}
use apf_ue4ss.Prelude.{
  ℕ, String, Bool, true, false, Option, none, some, List, [], ◌∷◌, ◌++◌, map, if◌then◌else◌,
}
use apf_ue4ss.Prelude.Int.{ℤ}
use apf_ue4ss.Types.Json.{JsonOps}
use apf_ue4ss.Types.Message.{IpcMessage}
use apf_ue4ss.Pipe.{JsonText}
use apf_ue4ss.Pipe.Client.{Client, ClientEffect, send_message}
use apf_ue4ss.Actions.{
  CallResult, valid, invalid, sol_error, exception, unknown_error, ClientActionResult,
}

-- The `g_callback_…` variables that `handle_message` calls, by their names in the log.
pub data Callback : Type 0 where
  on_message on_item_received on_lifecycle on_state_active on_state_error : Callback
  on_registration_success on_registration_rejected on_error on_command_response : Callback

unfoldable pub callback_name : Callback → String
callback_name on_message = "on_message"
callback_name on_item_received = "on_item_received"
callback_name on_lifecycle = "on_lifecycle"
callback_name on_state_active = "on_state_active"
callback_name on_state_error = "on_state_error"
callback_name on_registration_success = "on_registration_success"
callback_name on_registration_rejected = "on_registration_rejected"
callback_name on_error = "on_error"
callback_name on_command_response = "on_command_response"

-- What a callback gets; `json` stands for the text of the document, `table` for the result of a
-- command.
pub data Argument (J : Type 0) : Type 0 where
  text : String → Argument J
  integer : ℤ → Argument J
  json : J → Argument J
  table : Bool → String → J → Argument J

-- `outcome` counts the making of the arguments too; `without_lua` is how the default
-- `protected_function_result` reads.
pub record Callbacks (J : Type 0) : Type 0 where
  pub registered : Callback → Bool
  pub outcome : Callback → List (Argument J) → CallResult
  pub without_lua : CallResult

-- The variables of main.cpp: `executor` tells whether there is an action executor.
pub record Mod (J : Type 0) : Type 0 where
  pub mod_id : String
  pub current_lifecycle_state : String
  pub executor : Bool
  pub client : Client J

pub data ModEffect (J : Type 0) : Type 0 where
  called : Callback → List (Argument J) → ModEffect J
  executed : ClientActionResult → ModEffect J
  logged : String → ModEffect J
  pipe : ClientEffect J → ModEffect J

-- A piece of the code: the variables after it, its effects, and whether it returns.
abbrev pub Piece : Type 0 → Type 0
Piece J = Mod J → Mod J × List (ModEffect J) × Bool

module _ {J : Type 0} where
  abbrev pub nothing : Piece J
  nothing s = (s, [], true)

  -- An exception that is not caught here.
  abbrev pub escapes : Piece J
  escapes s = (s, [], false)

  abbrev pub does : ModEffect J → Piece J
  does e s = (s, e ∷ [], true)

  -- One piece after the other.
  unfoldable pub and_then : Piece J → Piece J → Piece J
  and_then first second s =
      let (s', es, returned) = first s in
      let (s'', fs, again) = second s' in
      if returned then (s'', es ++ fs, again) else (s', es, false)

  -- What follows the reading of a payload, which throws on a member of the wrong type.
  abbrev pub after_reading {ℓ} : {A : Type ℓ} → Option A → (A → Piece J) → Piece J
  after_reading none next = escapes
  after_reading (some a) next = next a

module _ {J : Type 0} ⦃ops : JsonOps J⦄ (texts : JsonText J) (deliver : List ℕ → Bool) where
  -- `if (g_ipc_client && g_ipc_client->is_connected()) g_ipc_client->send_message(msg)`; the client
  -- exists, since the messages come from it.
  unfoldable pub send : IpcMessage J → Piece J
  unfolding send_message
  send msg s =
      let (client, es, ok) = send_message texts deliver s.client msg in
      if s.client.connected
      then (record s { client = client }, map (λ e. pipe e) es, true)
      else (s, [], true)

  unfoldable pub callback_error : String → String → String → IpcMessage J
  callback_error mod_id error_type details = record {
    type = "callback_error";
    source = mod_id;
    target = "framework";
    payload = ops.object (
        ("error_type", ops.text error_type)
        ∷ ("details", ops.text details)
        ∷ ("mod_id", ops.text mod_id)
        ∷ []);
  }

  unfoldable pub notify_framework_of_error : String → String → Piece J
  unfolding send callback_error
  notify_framework_of_error error_type details s =
      send (callback_error s.mod_id error_type details) s

  unfoldable pub callback_failed : Callback → String → String → String → Piece J
  unfolding and_then notify_framework_of_error callback_name
  callback_failed callback how error_type what =
      and_then
        (does
          (logged (append_text how (append_text (callback_name callback) (append_text ": " what)))))
        (notify_framework_of_error error_type
          (append_text (callback_name callback) (append_text ": " what)))

  -- How the call of a callback ends.
  unfoldable pub settle : Callback → CallResult → Piece J
  unfolding callback_failed
  settle callback valid = nothing
  settle callback (invalid what) =
      callback_failed callback "Callback error in " "callback_error" what
  settle callback (sol_error what) =
      callback_failed callback "Callback exception in " "callback_exception" what
  settle callback (exception what) =
      callback_failed callback "Callback exception in " "callback_exception" what
  settle callback unknown_error = escapes

  -- The Boolean result is used by no caller here.
  unfoldable pub invoke_optional_callback : Callbacks J → Callback → List (Argument J) → Piece J
  unfolding settle and_then
  invoke_optional_callback callbacks callback args =
      if callbacks.registered callback
      then and_then (does (called callback args))
          (settle callback (callbacks.outcome callback args))
      else nothing
