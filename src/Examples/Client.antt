-- ===== src/Examples/Client.antt =====
-- The client of the framework and the polling thread at concrete inputs.
use apf_ue4ss.Prelude.{ℕ, String, true, false, ◌≡◌, refl, none, some, List, [], ◌∷◌, ◌++◌}
use apf_ue4ss.Prelude.Int.{pos, leb_ℤ}
use apf_ue4ss.Types.{ItemOwnership, ActionArg}
use apf_ue4ss.Types.Enums.{progression, string, property, error_state, lifecycle_state_to_string}
use apf_ue4ss.Types.Message.{IpcMessage}
use apf_ue4ss.Router.{broadcasted, broadcast_lifecycle, execute_action}
use apf_ue4ss.Manager.Messages.{result_of_message}
use apf_ue4ss.Pipe.{JsonText, encode, frame, length_prefix}
use apf_ue4ss.Pipe.Client.{written}
use apf_ue4ss.Actions.{Lua, valid, invalid, ClientActionResult, execute}
use apf_ue4ss.ClientMessages.{
  on_message, on_item_received, text, integer, json, Callbacks, Mod, executed, pipe, report,
  response, handle_message,
}
use apf_ue4ss.ClientMessages.Steps.{calls}
use apf_ue4ss.ClientMessages.Answer.{handle_message-execute_action}
use apf_ue4ss.ClientMessages.Lifecycle.{lifecycle_message, handle_message-broadcast_lifecycle}
use apf_ue4ss.Polling.{PollingThread, slot_connected, start, stop, answered, terminated}
use apf_ue4ss.Polling.Delivery.{start-stop, handled, state_after, handled-state_after}
use apf_ue4ss.Examples.Fixtures.{Doc, d_text, doc_ops, doc_laws, bare_router, waiting, at}

-- A Lua state whose globals are texts, in which every text is a function that fails.
abbrev pub lua : Lua Doc String
lua = record {
  nil = "nil";
  global = λ name. name;
  index = λ v. none;
  is_function = λ v. true;
  call = λ f args. invalid "no table";
  from_text = λ s. s;
  from_integer = λ n. "integer";
  from_boolean = λ b. "boolean";
  from_number = λ j. "number";
  integer_of = doc_ops.as_integer;
  is_number_float = λ j. false;
  dump = λ j. "";
}

abbrev sword : ItemOwnership Doc
sword = record {
  mod_id = "ruins.mod";
  item_name = "Sword";
  item_id = pos 102;
  type = progression;
  action = "give_sword";
  args = [];
  max_count = pos 1;
}

abbrev args : List (ActionArg Doc)
args =
    record { name = "id"; type = string; value = d_text "102" }
    ∷ record { name = "owner"; type = property; value = d_text "Game.player" }
    ∷ []

-- A text of three bytes stands for every message.
abbrev texts : JsonText Doc
texts = record { dump = λ j. some (123 ∷ 32 ∷ 125 ∷ []); parse = λ bytes. none }

abbrev answer_bytes : List ℕ
answer_bytes = 3 ∷ 0 ∷ 0 ∷ 0 ∷ 123 ∷ 32 ∷ 125 ∷ []

answer_text : (m : IpcMessage Doc) → encode texts m ≡ some answer_bytes
unfolding encode frame length_prefix
answer_text m = refl

abbrev callbacks : Callbacks Doc
callbacks = record {
  registered = λ callback. true;
  outcome = λ callback arguments. valid;
  without_lua = valid;
}

abbrev ruins : Mod Doc
ruins = record {
  mod_id = "ruins.mod";
  current_lifecycle_state = "";
  executor = true;
  client = record {
    pipe_name = "";
    connected = true;
    reading = true;
    auto_reconnect = false;
    message_queue = [];
  };
}

abbrev swing : ClientActionResult
swing = execute (some lua) "give_sword" args (pos 102) "Sword"

abbrev gift : IpcMessage Doc
gift = execute_action sword (pos 102) "Sword" "Ann" args

handle_message-execute_action_example :
    ((handle_message texts (λ bytes. true) "" (some lua) callbacks gift ruins).1
      ≡ calls callbacks on_message (text gift.type ∷ json gift.payload ∷ [])
        ++ (executed swing
            ∷ (calls callbacks on_item_received (integer (pos 102) ∷ text "Sword" ∷ text "Ann" ∷ [])
                ++ (pipe (written answer_bytes)
                    ∷ (report texts (λ bytes. true) swing "Sword" ruins).1))))
    × (result_of_message {J = Doc} "ruins.mod" (response "ruins.mod" swing)
        ≡ some (record {
          mod_id = "ruins.mod";
          item_id = swing.item_id;
          item_name = swing.item_name;
          success = swing.success;
          error = swing.error;
        }))
handle_message-execute_action_example =
    handle_message-execute_action doc_laws texts (λ bytes. true) "" (some lua) callbacks sword
      (pos 102) "Sword" "Ann" "ruins.mod" args ruins answer_bytes refl (λ callback arguments. refl)
      refl refl (answer_text (response "ruins.mod" swing)) refl

handle_message-broadcast_lifecycle_example :
    (broadcast_lifecycle bare_router error_state "lost"
      ≡ broadcasted (lifecycle_message error_state "lost") ∷ [])
    × ((handle_message texts
          (λ bytes. true)
          ""
          (some lua)
          callbacks
          (lifecycle_message error_state "lost")
          ruins).0.current_lifecycle_state
        ≡ lifecycle_state_to_string error_state)
handle_message-broadcast_lifecycle_example =
    handle_message-broadcast_lifecycle doc_laws texts (λ bytes. true) "" (some lua) callbacks
      bare_router error_state "lost" ruins refl

abbrev thread : PollingThread Doc
thread = record {
  running = true;
  stop_requested = false;
  joinable = true;
  interval_ms = pos 16;
  event_queue = record { items = []; max_size = 0; is_shutdown = false };
}

start-stop_example :
    (leb_ℤ (pos 5000) (pos 0) ≡ false
      → ((stop thread (pos 5000) (pos 0)).1 ≡ true)
        × (start (stop thread (pos 5000) (pos 0)).0 true (pos 16) ≡ answered thread true))
    × (leb_ℤ (pos 5000) (pos 0) ≡ true
        → ((stop thread (pos 5000) (pos 0)).1 ≡ false)
          × (start (stop thread (pos 5000) (pos 0)).0 true (pos 16) ≡ terminated))
start-stop_example = start-stop thread (pos 5000) (pos 0) (pos 16) refl refl

handled-state_after_example :
    (handled (pos 1) (λ id. "Chest") waiting (at 2000) (slot_connected "Player")).current_state
    ≡ state_after {J = Doc} waiting.current_state (slot_connected "Player")
handled-state_after_example =
    handled-state_after (pos 1) (λ id. "Chest") waiting (at 2000) (slot_connected "Player")
