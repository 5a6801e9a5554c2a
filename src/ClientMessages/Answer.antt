-- ===== src/ClientMessages/Answer.antt =====
-- From the EXECUTE_ACTION message of the framework through `handle_message` of
-- APClientLib/src/main.cpp to the ACTION_RESULT that ap_manager.cpp reads.
use apf_ue4ss.Prelude.{
  ℕ, String, Bool, true, false, Option, some, List, [], ◌∷◌, ◌++◌, ◌≡◌, refl, ap, ◌∙◌,
}
use apf_ue4ss.Prelude.Int.{ℤ}
use apf_ue4ss.Prelude.Text.{is_empty}
use apf_ue4ss.Prelude.Dict.{lookup, string_eq}
use apf_ue4ss.Types.{ActionArg, ItemOwnership}
use apf_ue4ss.Types.Json.{JsonOps, JsonLaws, value, value_text, value_integer, value_boolean}
use apf_ue4ss.Router.{execute_action}
use apf_ue4ss.Manager.Messages.{result_of_message}
use apf_ue4ss.Pipe.{JsonText, encode}
use apf_ue4ss.Pipe.Client.{written}
use apf_ue4ss.Actions.{Lua, valid, ClientActionResult, execute, execute_from_payload}
use apf_ue4ss.Actions.Payload.{execute_from_payload-execute_action}
use apf_ue4ss.ClientMessages.{
  Callback, on_message, on_item_received, Argument, text, integer, json, Callbacks, Mod, executed,
  pipe, does, and_then, after_reading, invoke_optional_callback, respond, report, response,
  item_received, handle_action, read_item, by_type, handle_message,
}
use apf_ue4ss.ClientMessages.Steps.{
  calls, if-true, behind, and_then-done, quiet, sent_back, message_lem,
}

module _ {J V : Type 0} ⦃ops : JsonOps J⦄ (laws : JsonLaws ops) (texts : JsonText J)
    (deliver : List ℕ → Bool) (what : String) (lua : Option (Lua J V))
    (callbacks : Callbacks J) where
  -- The answer, as the framework reads it.
  result-response :
      (client_id mod_id : String) (result : ClientActionResult)
      → result_of_message {J = J} client_id (response mod_id result)
        ≡ some (record {
          mod_id = client_id;
          item_id = result.item_id;
          item_name = result.item_name;
          success = result.success;
          error = result.error;
        })
  unfolding result_of_message response value_integer value_text value_boolean lookup
  result-response client_id mod_id result = simp (
    value, laws.is_object-object, laws.member-object, laws.as_text-text, laws.as_integer-integer,
    laws.as_boolean-boolean,
  )

  item_back :
      (item : ItemOwnership J) (item_id : ℤ) (item_name sender_name : String)
      (args : List (ActionArg J))
      → read_item (execute_action item item_id item_name sender_name args).payload
        ≡ some (item_id, item_name, sender_name)
  unfolding read_item execute_action value_integer value_text lookup
  item_back item item_id item_name sender_name args =
      simp (
        value, laws.is_object-object, laws.member-object, laws.as_text-text,
        laws.as_integer-integer,
      )

  item_received_lem :
      (result : ClientActionResult) (item_id : ℤ) (item_name sender : String) (s : Mod J)
      (bytes : List ℕ)
      → callbacks.outcome on_item_received (integer item_id ∷ text item_name ∷ text sender ∷ [])
        ≡ valid
      → s.client.connected ≡ true
      → encode texts (response s.mod_id result) ≡ some bytes
      → deliver bytes ≡ true
      → item_received texts deliver callbacks result (item_id, item_name, sender) s ≡ (
        (report texts deliver result item_name s).0,
        calls callbacks on_item_received (integer item_id ∷ text item_name ∷ text sender ∷ [])
            ++ (pipe (written bytes) ∷ (report texts deliver result item_name s).1),
        (report texts deliver result item_name s).2,
      )
  unfolding item_received respond
  item_received_lem result item_id item_name sender s bytes ok on code done =
      let args = integer item_id ∷ text item_name ∷ text sender ∷ [] in
      and_then-done (invoke_optional_callback texts deliver callbacks on_item_received args)
        (and_then (respond texts deliver result) (report texts deliver result item_name)) s s
        (calls callbacks on_item_received args)
        (quiet texts deliver callbacks on_item_received args s ok)
      ∙ ap (behind (calls callbacks on_item_received args)) (
          and_then-done (respond texts deliver result) (report texts deliver result item_name) s s
            (pipe (written bytes) ∷ [])
            (sent_back texts deliver (response s.mod_id result) s bytes on code done))

  acted :
      (result : ClientActionResult) (payload : J) (item : ℤ × String × String) (s : Mod J)
      → s.executor ≡ true
      → read_item payload ≡ some item
      → handle_action texts deliver callbacks result payload s
        ≡ behind (executed result ∷ []) (item_received texts deliver callbacks result item s)
  unfolding handle_action
  acted result payload item s executor h =
      if-true s.executor _ _ executor
      ∙ and_then-done (does (executed result))
          (after_reading (read_item payload) (item_received texts deliver callbacks result)) s s
          (executed result ∷ []) refl
      ∙ ap
          (λ o.
            behind (executed result ∷ [])
              (after_reading o (item_received texts deliver callbacks result) s))
          h

  by_type-execute_action :
      (item : ItemOwnership J) (item_id : ℤ) (item_name sender_name : String)
      (args : List (ActionArg J)) (s : Mod J)
      → let msg = execute_action item item_id item_name sender_name args in
        by_type texts deliver what lua callbacks msg s
        ≡ handle_action texts deliver callbacks
            (execute_from_payload what lua msg.payload)
            msg.payload
            s
  unfolding by_type execute_action
  by_type-execute_action item item_id item_name sender_name args s = refl

  -- The framework's EXECUTE_ACTION reaches the function it names: if there is an executor, the client
  -- is connected, the answer has a text and its write succeeds, and no callback fails, then
  -- `handle_message` calls the registered ones before and behind the action, and writes behind them
  -- an ACTION_RESULT that the framework reads back as the result of executing this action with these
  -- arguments; only the report of a failed action comes after it.
  pub handle_message-execute_action :
      (item : ItemOwnership J) (item_id : ℤ) (item_name sender_name client_id : String)
      (args : List (ActionArg J)) (s : Mod J) (bytes : List ℕ)
      → is_empty item.action ≡ false
      → ((callback : Callback) (arguments : List (Argument J))
          → callbacks.outcome callback arguments ≡ valid)
      → s.executor ≡ true
      → s.client.connected ≡ true
      → encode texts (response s.mod_id (execute lua item.action args item_id item_name))
        ≡ some bytes
      → deliver bytes ≡ true
      → let msg = execute_action item item_id item_name sender_name args in
        let result = execute lua item.action args item_id item_name in
        ((handle_message texts deliver what lua callbacks msg s).1
          ≡ calls callbacks on_message (text msg.type ∷ json msg.payload ∷ [])
            ++ (executed result
                ∷ (calls callbacks on_item_received
                      (integer item_id ∷ text item_name ∷ text sender_name ∷ [])
                    ++ (pipe (written bytes) ∷ (report texts deliver result item_name s).1))))
        × (result_of_message {J = J} client_id (response s.mod_id result)
            ≡ some (record {
              mod_id = client_id;
              item_id = result.item_id;
              item_name = result.item_name;
              success = result.success;
              error = result.error;
            }))
  handle_message-execute_action item item_id item_name sender_name client_id args s bytes action ok
        executor on code done =
      let msg = execute_action item item_id item_name sender_name args in
      let result = execute lua item.action args item_id item_name in
      let arguments = text msg.type ∷ json msg.payload ∷ [] in
      (
        ap (λ r. r.1)
            (message_lem texts deliver what lua callbacks msg s (ok on_message arguments)
              ∙ ap (behind (calls callbacks on_message arguments)) (
                  by_type-execute_action item item_id item_name sender_name args s
                  ∙ ap (λ r. handle_action texts deliver callbacks r msg.payload s)
                      (execute_from_payload-execute_action laws what lua item item_id item_name
                        sender_name args action)
                  ∙ acted result msg.payload (item_id, item_name, sender_name) s executor
                      (item_back item item_id item_name sender_name args)
                  ∙ ap (behind (executed result ∷ [])) (
                      item_received_lem result item_id item_name sender_name s bytes
                        (ok on_item_received _) on code done))),
        result-response client_id s.mod_id result,
      )
