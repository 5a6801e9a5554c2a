-- ===== src/Pipe/Client.antt =====
-- APClientLib/src/ap_ipc_client.cpp, class `APIPCClient::Impl` on Windows, with the pipe as values
-- and effects as in the server. `ClientIPCMessage` of ap_client_types.h has the fields and the
-- JSON form of `IPCMessage`.
pub mod Delivery
pub mod Reconnect
use Prim.Native.Char.{code}
use Prim.Native.String.{◌++◌ as append_text}
use apf_ue4ss.Prelude.{
  ℕ, zero, suc, ◌==◌, ltb, String, Bool, true, false, not, ◌&&◌, ◌||◌, Option, none, some, List, [],
  ◌∷◌, ◌++◌, map, if◌then◌else◌,
}
use apf_ue4ss.Prelude.Text.{is_empty}
use apf_ue4ss.Types.Json.{JsonOps}
use apf_ue4ss.Types.Message.{IpcMessage}
use apf_ue4ss.Pipe.{
  JsonText, encode, decode, extract, Received, too_short, incomplete, out_of_bounds, content,
}
use apf_ue4ss.Pipe.Server.{
  ReadStart, started, broken, failed, Completion, transferred, pipe_broken, other_error,
}

-- `message_queue` is a std::queue, without a bound.
pub record Client (J : Type 0) : Type 0 where
  pub pipe_name : String
  pub connected : Bool
  pub reading : Bool
  pub auto_reconnect : Bool
  pub message_queue : List (IpcMessage J)

-- The calls of the handlers and of ReadFile, the writes, and a read behind the buffer.
pub data ClientEffect (J : Type 0) : Type 0 where
  connect_handler disconnect_handler read_file undefined_read : ClientEffect J
  message_handler : IpcMessage J → ClientEffect J
  written : List ℕ → ClientEffect J

-- What `connect` meets: whether CreateFileA opens the pipe at an attempt, whether the mode and the
-- event are set up, and how the first read starts.
pub record Opening : Type 0 where
  pub opens : ℕ → Bool
  pub mode_set : Bool
  pub event_created : Bool
  pub first_read : ReadStart

-- The game name that `poll` finds behind the last underscore of the pipe name: `none` if there is
-- no underscore.
unfoldable pub after_last : String → Option String
after_last String.[] = none
after_last (String.◌∷◌ c s) = elim (after_last s) [
  | some rest ↦ some rest
  | none ↦ if code c == 95 then some s else none
]

-- `pipe_name_.substr(pipe_name_.rfind('_') + 1)`: the whole name where `rfind` gives npos.
unfoldable pub reconnect_name : String → String
unfolding after_last
reconnect_name pipe_name = elim (after_last pipe_name) [ none ↦ pipe_name | some game ↦ game ]

-- `for (attempt = 0; attempt < 3; ++attempt)`, until the pipe opens.
unfoldable pub open_attempts : (ℕ → Bool) → ℕ → ℕ → Bool
open_attempts opens zero attempt = false
open_attempts opens (suc left) attempt =
    if opens attempt then true else open_attempts opens left (suc attempt)

module _ {J : Type 0} where
  unfoldable pub handle_disconnect : Client J → Client J × List (ClientEffect J)
  handle_disconnect c =
      if c.connected
      then (record c { connected = false; reading = false }, disconnect_handler ∷ [])
      else (c, [])

  unfoldable pub start_read : Client J → ReadStart → Client J × List (ClientEffect J)
  unfolding handle_disconnect
  start_read c result = if not c.connected || c.reading then (c, []) else elim result [
    | started ↦ (record c { reading = true }, read_file ∷ [])
    | broken ↦
        let lost = handle_disconnect (record c { reading = false }) in (lost.0, read_file ∷ lost.1)
    | failed ↦ (record c { reading = false }, read_file ∷ [])
  ]

  unfoldable pub connect : Client J → String → Opening → Client J × List (ClientEffect J) × Bool
  unfolding open_attempts start_read
  connect c game_name opening =
      let named = record c { pipe_name = append_text "\\\\.\\pipe\\APFramework_" game_name } in
      let opened = start_read (record named { connected = true }) opening.first_read in
      if c.connected
      then (c, [], true)
      else if open_attempts opening.opens 3 0 && opening.mode_set && opening.event_created
      then (opened.0, opened.1 ++ connect_handler ∷ [], true)
      else (named, [], false)

  unfoldable pub disconnect : Client J → Client J × List (ClientEffect J)
  disconnect c =
      if c.connected then (record c { connected = false }, disconnect_handler ∷ []) else (c, [])

  -- The next read, after what has been done.
  unfoldable pub resume :
      Client J × List (ClientEffect J) → ReadStart → Client J × List (ClientEffect J)
  unfolding start_read
  resume (c, es) next = let again = start_read c next in (again.0, es ++ again.1)

  -- The messages of the queue go to the handler, in order, after what has been done.
  unfoldable pub dispatch : Client J × List (ClientEffect J) → Client J × List (ClientEffect J)
  dispatch (c, es) =
      (record c { message_queue = [] }, es ++ map (λ msg. message_handler msg) c.message_queue)

module _ {J : Type 0} ⦃ops : JsonOps J⦄ (texts : JsonText J) where
  -- Whether `WriteFile` succeeds and writes all of the bytes: `deliver`.
  unfoldable pub send_message :
      (List ℕ → Bool) → Client J → IpcMessage J → Client J × List (ClientEffect J) × Bool
  unfolding encode handle_disconnect
  send_message deliver c message =
      if c.connected
      then elim (encode texts message) [
        | none ↦ (c, [], false)
        | some bytes ↦
            if deliver bytes
            then (c, written bytes ∷ [], true)
            else let lost = handle_disconnect c in (lost.0, written bytes ∷ lost.1, false)
      ]
      else (c, [], false)

  unfoldable pub handle_text : Client J → List ℕ → Client J
  unfolding decode
  handle_text c json_str = elim (decode texts json_str) [
    | none ↦ c
    | some msg ↦ record c { message_queue = c.message_queue ++ msg ∷ [] }
  ]

  unfoldable pub handle_received : Client J → Received → Client J × List (ClientEffect J)
  unfolding handle_text
  handle_received c too_short = (c, [])
  handle_received c incomplete = (c, [])
  handle_received c out_of_bounds = (c, undefined_read ∷ [])
  handle_received c (content json_str) = (handle_text c json_str, [])

  unfoldable pub process_received_data : Client J → List ℕ → ℕ → Client J × List (ClientEffect J)
  unfolding extract handle_received
  process_received_data c read_buffer bytes_received =
      handle_received c (extract read_buffer bytes_received)

  -- How the read ends, `none` while it waits; `next` is how the next read starts.
  unfoldable pub handle_completion :
      Client J → Option Completion → ReadStart → Client J × List (ClientEffect J)
  unfolding process_received_data resume handle_disconnect
  handle_completion c none next = (c, [])
  handle_completion c (some pipe_broken) next = handle_disconnect (record c { reading = false })
  handle_completion c (some other_error) next = (record c { reading = false }, [])
  handle_completion c (some (transferred read_buffer bytes)) next =
      let idle = record c { reading = false } in
      resume (if ltb 0 bytes then process_received_data idle read_buffer bytes else (idle, [])) next

  unfoldable pub check_read_completion :
      Client J → Option Completion → ReadStart → Client J × List (ClientEffect J)
  unfolding handle_completion
  check_read_completion c completion next =
      if not c.reading || not c.connected then (c, []) else handle_completion c completion next

  -- `poll`: what the read and a reconnection meet comes in, as in `check_read_completion` and
  -- `connect`.
  unfoldable pub poll :
      Client J → Option Completion → ReadStart → Opening → Client J × List (ClientEffect J)
  unfolding check_read_completion connect reconnect_name dispatch
  poll c completion next opening =
      let again = connect c (reconnect_name c.pipe_name) opening in
      if not c.connected
      then if c.auto_reconnect && not (is_empty c.pipe_name) then (again.0, again.1) else (c, [])
      else dispatch (check_read_completion c completion next)

  unfoldable pub get_pending_messages :
      Client J
      → Option Completion
      → ReadStart
      → Client J × List (ClientEffect J) × List (IpcMessage J)
  unfolding check_read_completion
  get_pending_messages c completion next =
      let checked = check_read_completion c completion next in
      (record checked.0 { message_queue = [] }, checked.1, checked.0.message_queue)

  -- The first message of the queue, taken out.
  unfoldable pub take_message : Client J → List (IpcMessage J) → Client J × Option (IpcMessage J)
  take_message c [] = (c, none)
  take_message c (msg ∷ messages) = (record c { message_queue = messages }, some msg)

  unfoldable pub try_receive :
      Client J
      → Option Completion
      → ReadStart
      → Client J × List (ClientEffect J) × Option (IpcMessage J)
  unfolding check_read_completion take_message
  try_receive c completion next =
      let checked = check_read_completion c completion next in
      let taken = take_message checked.0 checked.0.message_queue in (taken.0, checked.1, taken.1)
