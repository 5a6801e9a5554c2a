-- ===== src/ClientMessages.antt =====
-- APClientLib/src/main.cpp: what the client does with a message of the framework
-- (`handle_message`), its calls of the callbacks and its answers over the pipe.
mod Invoke
pub mod Steps
pub mod Answer
pub mod Lifecycle
unfoldable pub use Invoke.*
use Prim.Native.String.{◌++◌ as append_text}
use apf_ue4ss.Prelude.{
  ℕ, String, Bool, true, false, Option, none, some, List, [], ◌∷◌, if◌then◌else◌, ◌>>=◌,
}
use apf_ue4ss.Prelude.Int.{ℤ, pos}
use apf_ue4ss.Prelude.Text.{str_eq}
use apf_ue4ss.Types.Json.{JsonOps, value, value_text, value_integer, value_boolean}
use apf_ue4ss.Types.Message.{IpcMessage}
use apf_ue4ss.Pipe.{JsonText}
use apf_ue4ss.Actions.{Lua, ClientActionResult, execute_from_payload}

module _ {J : Type 0} ⦃ops : JsonOps J⦄ where
  -- The item of an EXECUTE_ACTION payload, read again behind the execution.
  unfoldable pub read_item : J → Option (ℤ × String × String)
  unfolding value_integer value_text
  read_item payload = do
    item_id ← value_integer payload "item_id" (pos 0)
    item_name ← value_text payload "item_name" ""
    sender ← value_text payload "sender" ""
    some (item_id, item_name, sender)

  unfoldable pub read_pair : J → String → String → Option (String × String)
  unfolding value_text
  read_pair payload first second = do
    a ← value_text payload first ""
    b ← value_text payload second ""
    some (a, b)

  unfoldable pub read_registration : J → Option (Bool × String)
  unfolding value_boolean value_text
  read_registration payload = do
    success ← value_boolean payload "success" false
    reason ← value_text payload "reason" ""
    some (success, reason)

  unfoldable pub read_command : J → Option (String × Bool × String × J)
  unfolding value_text value_boolean value
  read_command payload = do
    command ← value_text payload "command" ""
    success ← value_boolean payload "success" false
    error ← value_text payload "error" ""
    data_json ← value (λ v. some v) payload "data" (ops.object [])
    some (command, success, error, data_json)

  unfoldable pub response : String → ClientActionResult → IpcMessage J
  response mod_id result = record {
    type = "action_result";
    source = mod_id;
    target = "framework";
    payload = ops.object (
        ("item_id", ops.integer result.item_id)
        ∷ ("item_name", ops.text result.item_name)
        ∷ ("success", ops.boolean result.success)
        ∷ ("error", ops.text result.error)
        ∷ []);
  }

module _ {J : Type 0} ⦃ops : JsonOps J⦄ (texts : JsonText J) (deliver : List ℕ → Bool) where
  unfoldable pub respond : ClientActionResult → Piece J
  unfolding send response
  respond result s = send texts deliver (response s.mod_id result) s

  unfoldable pub report : ClientActionResult → String → Piece J
  unfolding and_then notify_framework_of_error
  report result item_name =
      if result.success
      then nothing
      else and_then
          (does (
            logged (
              append_text "Action execution failed for "
                (append_text item_name (append_text ": " result.error)))))
          (notify_framework_of_error texts deliver "action_failed" result.error)

  unfoldable pub item_received : Callbacks J → ClientActionResult → ℤ × String × String → Piece J
  unfolding and_then invoke_optional_callback respond report
  item_received callbacks result (item_id, item_name, sender) =
      and_then
        (invoke_optional_callback texts deliver callbacks on_item_received
          (integer item_id ∷ text item_name ∷ text sender ∷ []))
        (and_then (respond result) (report result item_name))

  unfoldable pub handle_action : Callbacks J → ClientActionResult → J → Piece J
  unfolding and_then item_received read_item notify_framework_of_error
  handle_action callbacks result payload s =
      if s.executor
      then and_then (does (executed result))
          (after_reading (read_item payload) (item_received callbacks result)) s
      else and_then (does (logged "Action executor not initialized"))
          (notify_framework_of_error texts deliver "action_executor_missing"
            "APActionExecutor not initialized")
          s

  unfoldable pub state_callbacks : Callbacks J → String → String → Piece J
  unfolding invoke_optional_callback
  state_callbacks callbacks state message =
      if str_eq state "ACTIVE"
      then invoke_optional_callback texts deliver callbacks on_state_active []
      else if str_eq state "ERROR_STATE"
      then invoke_optional_callback texts deliver callbacks on_state_error (text message ∷ [])
      else nothing

  unfoldable pub cache_state : String → Piece J
  cache_state state s = (record s { current_lifecycle_state = state }, [], true)

  unfoldable pub lifecycle_changed : Callbacks J → String × String → Piece J
  unfolding and_then cache_state invoke_optional_callback state_callbacks
  lifecycle_changed callbacks (state, message) = and_then (cache_state state) (
      and_then
        (invoke_optional_callback texts deliver callbacks on_lifecycle
          (text state ∷ text message ∷ []))
        (state_callbacks callbacks state message))

  unfoldable pub registration_answered : Callbacks J → Bool × String → Piece J
  unfolding invoke_optional_callback
  registration_answered callbacks (success, reason) =
      if success
      then invoke_optional_callback texts deliver callbacks on_registration_success []
      else invoke_optional_callback texts deliver callbacks on_registration_rejected
          (text reason ∷ [])

  unfoldable pub error_received : Callbacks J → String × String → Piece J
  unfolding invoke_optional_callback
  error_received callbacks (code, message) =
      invoke_optional_callback texts deliver callbacks on_error (text code ∷ text message ∷ [])

  -- Without a Lua state the callback is not called, and the default result is looked at.
  unfoldable pub command_answered : Callbacks J → Bool → String × Bool × String × J → Piece J
  unfolding invoke_optional_callback settle
  command_answered callbacks has_lua (command, success, error, data_json) =
      if has_lua
      then invoke_optional_callback texts deliver callbacks on_command_response
          (text command ∷ table success error data_json ∷ [])
      else if callbacks.registered on_command_response
      then settle texts deliver on_command_response callbacks.without_lua
      else nothing

module _ {J V : Type 0} ⦃ops : JsonOps J⦄ (texts : JsonText J) (deliver : List ℕ → Bool)
    (what : String) (lua : Option (Lua J V)) (callbacks : Callbacks J) where
  abbrev has_lua : Bool
  has_lua = elim lua [ none ↦ false | some l ↦ true ]

  -- The branches on the type, behind the generic callback.
  unfoldable pub by_type : IpcMessage J → Piece J
  unfolding handle_action lifecycle_changed registration_answered error_received command_answered
      read_pair read_registration read_command execute_from_payload
  by_type msg =
      if str_eq msg.type "execute_action"
      then handle_action texts deliver callbacks (execute_from_payload what lua msg.payload)
          msg.payload
      else if str_eq msg.type "lifecycle"
      then after_reading (read_pair msg.payload "state" "message")
          (lifecycle_changed texts deliver callbacks)
      else if str_eq msg.type "registration_response"
      then after_reading (read_registration msg.payload)
          (registration_answered texts deliver callbacks)
      else if str_eq msg.type "ap_message"
      then nothing
      else if str_eq msg.type "error"
      then after_reading (read_pair msg.payload "code" "message")
          (error_received texts deliver callbacks)
      else if str_eq msg.type "command_response"
      then after_reading (read_command msg.payload)
          (command_answered texts deliver callbacks has_lua)
      else nothing

  unfoldable pub handle_message : IpcMessage J → Piece J
  unfolding and_then invoke_optional_callback by_type
  handle_message msg =
      and_then
        (invoke_optional_callback texts deliver callbacks on_message
          (text msg.type ∷ json msg.payload ∷ []))
        (by_type msg)
