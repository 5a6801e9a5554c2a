-- ===== src/Examples/Pipe.antt =====
-- The pipe at concrete inputs: one message, whose text is a list of ten bytes, and two clients.
use apf_ue4ss.Prelude.{
  ℕ, ◌+◌, ◌≤◌, ◌<◌, leb, if◌then◌else◌, true, false, ◌≡◌, refl, ◌↔◌, Option, none, some, List, [],
  ◌∷◌, ◌++◌, map, length, arith,
}
use apf_ue4ss.Prelude.Dict.{lookup}
use apf_ue4ss.Types.Message.{IpcMessage, to_json}
use apf_ue4ss.Pipe.{JsonText, msg_length, extract, out_of_bounds, word, buffer_size}
use apf_ue4ss.Pipe.Laws.{extract-out_of_bounds_iff}
use apf_ue4ss.Pipe.Server.{
  ClientConnection, Server, Effect, ReadStart, started, Completion, transferred, pipe_broken,
  other_error,
}
use apf_ue4ss.Pipe.Server.Messages.{queue_write, process_received_data}
use apf_ue4ss.Pipe.Server.Table.{Table, Event, connects, completes, run, run-Table}
use apf_ue4ss.Pipe.Server.Authentic.{Authentic, process_received_data-Authentic}
use apf_ue4ss.Pipe.Client.{Client, read_file, message_handler, Opening, poll}
use apf_ue4ss.Pipe.Client.Delivery.{MessagePipe, poll-queue_write, poll_all, poll-deaf}
use apf_ue4ss.Examples.Fixtures.{Doc, d_object, d_member, d_text, d_empty, doc_ops, doc_laws}

abbrev hello : IpcMessage Doc
hello = record {
  type = "register";
  source = "";
  target = "framework";
  payload = d_object (d_member "mod_id" (d_text "ruins.mod") d_empty);
}

abbrev hello_doc : Doc
hello_doc = doc_ops.object (
    ("type", doc_ops.text "register")
    ∷ ("source", doc_ops.text "")
    ∷ ("target", doc_ops.text "framework")
    ∷ ("payload", d_object (d_member "mod_id" (d_text "ruins.mod") d_empty))
    ∷ [])

-- Ten bytes that stand for the message, whatever the document.
abbrev hello_text : List ℕ
hello_text = 123 ∷ 104 ∷ 101 ∷ 108 ∷ 108 ∷ 111 ∷ 58 ∷ 49 ∷ 50 ∷ 125 ∷ []

abbrev hello_texts : JsonText Doc
hello_texts = record { dump = λ j. some hello_text; parse = λ bytes. some hello_doc }

abbrev conn : ClientConnection
conn = record {
  pipe = 7;
  client_id = "client_1";
  reading = true;
  writing = false;
  pending_disconnect = false;
}

abbrev server : Server Doc
server = record {
  pipe_name = "";
  running = true;
  stop_requested = false;
  clients = ("client_1", conn) ∷ [];
  incoming = record { items = []; max_size = 0; is_shutdown = false };
  next_id = 2;
}

abbrev client : Client Doc
client = record {
  pipe_name = "\\\\.\\pipe\\APFramework_Ruins";
  connected = true;
  reading = true;
  auto_reconnect = true;
  message_queue = [];
}

abbrev opening : Opening
opening = record { opens = λ n. true; mode_set = true; event_created = true; first_read = started }

leb_small : (a b : ℕ) → a ≤ b → leb a b ≡ true
leb_small a b h = ground arith

leb_large : (a b : ℕ) → b < a → leb a b ≡ false
leb_large a b h = ground arith

-- A read into a buffer whose first bytes are those of the message.
abbrev read_message : List ℕ → Completion
read_message bytes =
    if leb (length bytes) buffer_size then transferred (bytes ++ []) (length bytes) else other_error

read_message-MessagePipe : MessagePipe read_message
read_message-MessagePipe = record {
  whole = λ bytes h. ([], rw (leb_small (length bytes) buffer_size h) refl);
  too_long = λ bytes h. rw (leb_large (length bytes) buffer_size h) refl;
}

poll-queue_write_example :
    (bytes : List ℕ) × ((queue_write hello_texts (λ pipe bs. true) conn hello).1
      ≡ Effect.written 7 bytes ∷ [])
    × (poll hello_texts client (some (read_message bytes)) started opening ≡ (
        if leb (4 + length hello_text) buffer_size
        then (
          record client { message_queue = [] },
          read_file ∷ map (λ msg. message_handler msg) (hello ∷ []),
        )
        else (
          record client { reading = false; message_queue = [] },
          map (λ msg. message_handler msg) [],
        )))
unfolding to_json
poll-queue_write_example =
    poll-queue_write hello_texts (λ pipe bs. true) conn client hello hello_text read_message opening
      doc_laws read_message-MessagePipe refl refl refl refl refl (omega arith)

abbrev polls : List (Option Completion × ReadStart × Opening)
polls = (some (transferred hello_text 10), started, opening) ∷ (none, started, opening) ∷ []

poll-deaf_example :
    (poll_all hello_texts (poll hello_texts client (some other_error) started opening).0 polls).1
    ≡ []
poll-deaf_example = poll-deaf hello_texts client started opening refl refl polls

-- A length of 2^32 - 1, in a read of four bytes.
abbrev overlong : List ℕ
overlong = 255 ∷ 255 ∷ 255 ∷ 255 ∷ []

extract-out_of_bounds_iff_example :
    (extract overlong 4 ≡ out_of_bounds) ↔ (word ≤ 4 + msg_length overlong)
extract-out_of_bounds_iff_example =
    extract-out_of_bounds_iff overlong 4
      (omega arith, (omega arith, (omega arith, (omega arith, tt)))) (omega arith) (omega arith)
      (omega arith)

-- A message of the first client, one of a client that comes later, and a broken pipe.
abbrev events : List (Event hello_texts)
events =
    completes "client_1" (transferred (10 ∷ 0 ∷ 0 ∷ 0 ∷ hello_text) 14) started
    ∷ connects 8 started
    ∷ completes "client_2" (transferred (10 ∷ 0 ∷ 0 ∷ 0 ∷ hello_text) 14) started
    ∷ completes "ruins.mod" pipe_broken started
    ∷ []

run-Table_example : Table (run hello_texts server events).clients
unfolding lookup
run-Table_example = run-Table hello_texts server events (refl, refl, tt)

process_received_data-Authentic_example :
    Authentic server 7
      (process_received_data hello_texts server conn (10 ∷ 0 ∷ 0 ∷ 0 ∷ hello_text) 14).0
unfolding lookup
process_received_data-Authentic_example =
    process_received_data-Authentic hello_texts server conn (10 ∷ 0 ∷ 0 ∷ 0 ∷ hello_text) 14 refl
