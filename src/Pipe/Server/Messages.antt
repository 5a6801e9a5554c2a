-- ===== src/Pipe/Server/Messages.antt =====
-- APFrameworkCore/src/ap_ipc_server.cpp: the messages that the server writes and receives.
use apf_ue4ss.Prelude.{ℕ, String, Bool, false, none, some, List, [], ◌∷◌, ◌++◌, ltb, if◌then◌else◌}
use apf_ue4ss.Prelude.Text.{str_eq}
use apf_ue4ss.Prelude.Dict.{string_eq, lookup}
use apf_ue4ss.Types.Json.{JsonOps, value_text}
use apf_ue4ss.Types.Message.{IpcMessage}
use apf_ue4ss.Pipe.{
  JsonText, encode, decode, extract, Received, too_short, incomplete, out_of_bounds, content,
}
use apf_ue4ss.Pipe.Server.{
  ClientConnection, Server, Effect, written, undefined_read, ReadStart, Completion, transferred,
  pipe_broken, other_error, start_read, handle_client_disconnect, at_pipe, rename, accept,
}

module _ {J : Type 0} ⦃ops : JsonOps J⦄ (texts : JsonText J) where
  -- Whether `WriteFile` on a pipe succeeds and writes all of the bytes: `deliver`.
  unfoldable pub queue_write :
      (ℕ → List ℕ → Bool) → ClientConnection → IpcMessage J → Bool × List Effect
  unfolding encode
  queue_write deliver conn message =
      if conn.pending_disconnect then (false, []) else elim (encode texts message) [
        | none ↦ (false, [])
        | some bytes ↦ (deliver conn.pipe bytes, written conn.pipe bytes ∷ [])
      ]

  unfoldable pub send_message :
      (ℕ → List ℕ → Bool) → Server J → String → IpcMessage J → Bool × List Effect
  unfolding queue_write
  send_message deliver s client_id message = elim (lookup client_id s.clients) [
    | none ↦ (false, [])
    | some conn ↦ queue_write deliver conn message
  ]

  unfoldable pub write_all :
      (ℕ → List ℕ → Bool) → List (String × ClientConnection) → IpcMessage J → List Effect
  unfolding queue_write
  write_all deliver [] message = []
  write_all deliver (c ∷ cs) message =
      (queue_write deliver c.1 message).1 ++ write_all deliver cs message

  unfoldable pub broadcast : (ℕ → List ℕ → Bool) → Server J → IpcMessage J → List Effect
  unfolding write_all
  broadcast deliver s message = write_all deliver s.clients message

  unfoldable pub write_others :
      (ℕ → List ℕ → Bool) → List (String × ClientConnection) → IpcMessage J → String → List Effect
  unfolding queue_write
  write_others deliver [] message exclude = []
  write_others deliver (c ∷ cs) message exclude =
      let rest = write_others deliver cs message exclude in
      if str_eq c.0 exclude then rest else (queue_write deliver c.1 message).1 ++ rest

  unfoldable pub broadcast_except :
      (ℕ → List ℕ → Bool) → Server J → IpcMessage J → String → List Effect
  unfolding write_others
  broadcast_except deliver s message exclude = write_others deliver s.clients message exclude

  unfoldable pub handle_text : Server J → ClientConnection → List ℕ → Server J × List Effect
  unfolding decode accept rename
  handle_text s conn json_str = elim (decode texts json_str) [
    | none ↦ (s, [])
    | some msg ↦
        if str_eq msg.type "register"
        then elim (value_text msg.payload "mod_id" "") [
          | none ↦ (s, [])
          | some new_id ↦
              let (moved, es, client_id) = rename s conn new_id in (accept moved msg client_id, es)
        ]
        else (accept s msg conn.client_id, [])
  ]

  -- What is done with the head of a read.
  unfoldable pub handle_received : Server J → ClientConnection → Received → Server J × List Effect
  unfolding handle_text
  handle_received s conn too_short = (s, [])
  handle_received s conn incomplete = (s, [])
  handle_received s conn out_of_bounds = (s, undefined_read ∷ [])
  handle_received s conn (content json_str) = handle_text s conn json_str

  unfoldable pub process_received_data :
      Server J → ClientConnection → List ℕ → ℕ → Server J × List Effect
  unfolding extract handle_received
  process_received_data s conn read_buffer bytes_received =
      handle_received s conn (extract read_buffer bytes_received)

  -- A read of `conn` is complete: the message is processed and the next read starts.
  unfoldable pub complete_read :
      Server J → ClientConnection → List ℕ → ℕ → ReadStart → Server J × List Effect
  unfolding start_read process_received_data at_pipe
  complete_read s conn read_buffer bytes next =
      let idle = record s {
        clients = at_pipe conn.pipe (λ c. record c { reading = false }) s.clients;
      } in
      let here = record conn { reading = false } in
      let result =
        if ltb 0 bytes then process_received_data idle here read_buffer bytes else (idle, []) in
      (
        record result.0 { clients = at_pipe conn.pipe (λ c. start_read c next) result.0.clients },
        result.1,
      )

  -- `handle_client_io`, on the connection that `GetOverlappedResult` was asked for.
  unfoldable pub handle_completion :
      Server J → ClientConnection → Completion → ReadStart → Server J × List Effect
  unfolding complete_read handle_client_disconnect at_pipe
  handle_completion s conn pipe_broken next = handle_client_disconnect s conn.client_id
  handle_completion s conn other_error next = (s, [])
  handle_completion s conn (transferred read_buffer bytes) next =
      if conn.reading
      then complete_read s conn read_buffer bytes next
      else if conn.writing
      then (
        record s { clients = at_pipe conn.pipe (λ c. record c { writing = false }) s.clients },
        [],
      )
      else (s, [])

  -- An I/O event of the connection that stands under `client_id`; `next` is how the next read
  -- starts.
  unfoldable pub handle_client_io :
      Server J → String → Completion → ReadStart → Server J × List Effect
  unfolding handle_completion
  handle_client_io s client_id completion next = elim (lookup client_id s.clients) [
    | none ↦ (s, [])
    | some conn ↦ handle_completion s conn completion next
  ]
