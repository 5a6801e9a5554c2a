-- ===== src/Pipe/Server.antt =====
-- APFrameworkCore/src/ap_ipc_server.cpp, class `APIPCServer::Impl` on Windows. What the pipes do
-- (the results of ReadFile, WriteFile and GetOverlappedResult) comes in as a value; what the code
-- does to them comes out as effects. Only the I/O thread changes the table of clients while it runs.
pub mod Messages
pub mod Table
pub mod Authentic
use Prim.Native.String.{◌++◌ as append_text}
use apf_ue4ss.Prelude.{
  ℕ, ◌+◌, String, Bool, true, false, not, ◌&&◌, ◌||◌, Option, none, some, List, [], ◌∷◌, ◌++◌,
  length, map, take, ltb, ◌==◌, if◌then◌else◌,
}
use apf_ue4ss.Prelude.Int.{pos}
use apf_ue4ss.Prelude.Text.{str_eq, is_empty, to_string}
use apf_ue4ss.Prelude.Dict.{string_eq, lookup, put, erase}
use apf_ue4ss.Types.Json.{JsonOps, value_text}
use apf_ue4ss.Types.Message.{IpcMessage}
use apf_ue4ss.Queue.{ThreadSafeQueue, push, pop_all}
use apf_ue4ss.Pipe.{
  JsonText, encode, decode, extract, Received, too_short, incomplete, out_of_bounds, content,
}

-- `ClientConnection`; `pipe` names its handle.
pub record ClientConnection : Type 0 where
  pub pipe : ℕ
  pub client_id : String
  pub reading : Bool
  pub writing : Bool
  pub pending_disconnect : Bool

pub record Server (J : Type 0) : Type 0 where
  pub pipe_name : String
  pub running : Bool
  pub stop_requested : Bool
  pub clients : List (String × ClientConnection)
  pub incoming : ThreadSafeQueue (IpcMessage J)
  pub next_id : ℕ

-- What is done to a pipe, the calls of the handlers, and a read behind a buffer.
pub data Effect : Type 0 where
  written : ℕ → List ℕ → Effect
  closed : ℕ → Effect
  connected disconnected : String → Effect
  undefined_read : Effect

-- How `ReadFile` ends: it completes or waits, the pipe is broken, or another error.
pub data ReadStart : Type 0 where
  started broken failed : ReadStart

-- How an overlapped operation ended: the bytes in the read buffer (`buffer_size` many) and the number
-- of those that came, a broken pipe, or another error (a message that is larger than the buffer, say).
pub data Completion : Type 0 where
  transferred : List ℕ → ℕ → Completion
  pipe_broken other_error : Completion

unfoldable pub start_read : ClientConnection → ReadStart → ClientConnection
start_read conn result = if conn.reading || conn.pending_disconnect then conn else elim result [
  | started ↦ record conn { reading = true }
  | broken ↦ record conn { reading = false; pending_disconnect = true }
  | failed ↦ record conn { reading = false }
]

-- The name under which a connection stands until its mod registers.
unfoldable pub temp_id : ℕ → String
unfolding to_string
temp_id n = append_text "client_" (to_string (pos n))

-- The connection object with a given pipe, changed in place.
unfoldable pub at_pipe :
    ℕ
    → (ClientConnection → ClientConnection)
    → List (String × ClientConnection)
    → List (String × ClientConnection)
at_pipe pipe f [] = []
at_pipe pipe f ((id, conn) ∷ clients) =
    (id, (if conn.pipe == pipe then f conn else conn)) ∷ at_pipe pipe f clients

-- `clients_[new_id] = std::move(conn)` destroys the connection that stood there.
unfoldable pub evicted : List (String × ClientConnection) → String → List Effect
evicted clients new_id = elim (lookup new_id clients) [
  | none ↦ []
  | some old ↦ closed old.pipe ∷ []
]

module _ {J : Type 0} where
  unfoldable pub start : Server J → String → Server J × Bool
  start s game_name = if s.running then (s, false) else (
    record s {
      pipe_name = append_text "\\\\.\\pipe\\APFramework_" game_name;
      running = true;
      stop_requested = false;
    },
    true,
  )

  -- The destructors of the connections close their pipes.
  unfoldable pub stop : Server J → Server J × List Effect
  stop s =
      if s.running
      then (
        record s { running = false; stop_requested = true; clients = [] },
        map (λ (c : String × ClientConnection). closed c.1.pipe) s.clients,
      )
      else (s, [])

  unfoldable pub handle_new_connection : Server J → ℕ → ReadStart → Server J × List Effect
  unfolding temp_id start_read evicted
  handle_new_connection s pipe result =
      let id = temp_id s.next_id in
      let conn =
        start_read
          (record {
            pipe = pipe;
            client_id = id;
            reading = false;
            writing = false;
            pending_disconnect = false;
          })
          result in
      (
        record s { clients = put id conn s.clients; next_id = s.next_id + 1 },
        evicted s.clients id ++ connected id ∷ [],
      )

  unfoldable pub handle_client_disconnect : Server J → String → Server J × List Effect
  handle_client_disconnect s client_id = elim (lookup client_id s.clients) [
    | none ↦ (s, [])
    | some conn ↦ (
      record s { clients = erase client_id s.clients },
      disconnected client_id ∷ closed conn.pipe ∷ [],
    )
  ]

  unfoldable pub get_connected_clients : Server J → List String
  get_connected_clients s = map (λ (c : String × ClientConnection). c.0) s.clients

  unfoldable pub is_client_connected : Server J → String → Bool
  is_client_connected s client_id = elim (lookup client_id s.clients) [
    | none ↦ false
    | some conn ↦ true
  ]

  unfoldable pub get_client_count : Server J → ℕ
  get_client_count s = length s.clients

  unfoldable pub get_pending_messages : Server J → Server J × List (IpcMessage J)
  unfolding pop_all
  get_pending_messages s =
      let (incoming, messages) = pop_all s.incoming in (record s { incoming = incoming }, messages)

  -- The connection moves to the id of its mod; what comes back is its id after that.
  unfoldable pub rename : Server J → ClientConnection → String → Server J × List Effect × String
  unfolding evicted
  rename s conn new_id =
      if is_empty new_id || str_eq new_id conn.client_id
      then (s, [], conn.client_id)
      else elim (lookup conn.client_id s.clients) [
        | none ↦ (s, [], conn.client_id)
        | some moved ↦
            let rest = erase conn.client_id s.clients in
            (
              record s { clients = put new_id (record moved { client_id = new_id }) rest },
              evicted rest new_id,
              new_id,
            )
      ]

  -- The messages as the server queues them: the sender is the id of the connection.
  unfoldable pub accept : Server J → IpcMessage J → String → Server J
  unfolding push
  accept s msg client_id = record s {
    incoming = (push s.incoming (record msg { source = client_id })).0;
  }
