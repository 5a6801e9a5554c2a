-- ===== src/Pipe/Server/Table.antt =====
-- The table of clients of ap_ipc_server.cpp over any sequence of events.
use apf_ue4ss.Prelude.{
  ℕ, String, false, ◌||◌, ◌≡◌, refl, none, List, [], ◌∷◌, ltb, ◌==◌, arith, eq_iff, ◌∙◌, sym,
  Bool-cases, Option-cases, inl, inr,
}
use apf_ue4ss.Prelude.Text.{str_eq, is_empty}
use apf_ue4ss.Prelude.Dict.{string_eq, lookup, put, erase, lookup-put}
use apf_ue4ss.Types.Json.{JsonOps, value_text}
use apf_ue4ss.Pipe.{
  JsonText, decode, extract, Received, too_short, incomplete, out_of_bounds, content,
}
use apf_ue4ss.Pipe.Server.{
  ClientConnection, Server, ReadStart, started, broken, failed, Completion, transferred,
  pipe_broken, other_error, start, stop, start_read, temp_id, handle_new_connection,
  handle_client_disconnect, get_pending_messages, rename, accept, at_pipe,
}
use apf_ue4ss.Pipe.Server.Messages.{
  handle_text, handle_received, process_received_data, handle_completion, complete_read,
  handle_client_io,
}

-- Every connection stands under its own id, and no id stands twice.
abbrev pub Table : List (String × ClientConnection) → Type 0
Table [] = Unit
Table ((k, c) ∷ rest) = (k ≡ c.client_id) × (lookup k rest ≡ none) × Table rest

flip : (j k : String) → str_eq j k ≡ false → str_eq k j ≡ false
flip j k h = ground (arith, eq_iff j k, eq_iff k j)

lookup-put_other :
    (k j : String) (c : ClientConnection) (m : List (String × ClientConnection))
    → str_eq k j ≡ false
    → lookup j (put k c m) ≡ lookup j m
lookup-put_other k j c m h = rw (lookup-put k j c m, h) refl

put-Table :
    (k : String) (c : ClientConnection) (m : List (String × ClientConnection))
    → k ≡ c.client_id
    → Table m
    → Table (put k c m)
unfolding lookup put
put-Table k c [] h t = (h, refl, tt)
put-Table k c ((j, d) ∷ m) h t = elim (Bool-cases (str_eq j k)) [
  | inl e ↦ rw e (((eq_iff j k).0 e ∙ h), t.1, t.2)
  | inr e ↦ rw e (t.0, lookup-put_other k j c m (flip j k e) ∙ t.1, put-Table k c m h t.2)
]

erase_absent :
    (k j : String) (m : List (String × ClientConnection))
    → lookup j m ≡ none
    → lookup j (erase k m) ≡ none
unfolding lookup erase
erase_absent k j [] h = refl
erase_absent k j ((i, d) ∷ m) h = ground (arith, erase_absent k j m)

erase-Table : (k : String) (m : List (String × ClientConnection)) → Table m → Table (erase k m)
unfolding erase
erase-Table k [] t = tt
erase-Table k ((j, d) ∷ m) t = elim (Bool-cases (str_eq j k)) [
  | inl e ↦ rw e t.2
  | inr e ↦ rw e (t.0, erase_absent k j m t.1, erase-Table k m t.2)
]

lookup-at_pipe :
    (pipe : ℕ) (f : ClientConnection → ClientConnection) (k : String)
    (m : List (String × ClientConnection))
    → lookup k m ≡ none
    → lookup k (at_pipe pipe f m) ≡ none
unfolding lookup at_pipe
lookup-at_pipe pipe f k [] h = refl
lookup-at_pipe pipe f k ((j, c) ∷ m) h = ground (arith, lookup-at_pipe pipe f k m)

at_pipe-Table :
    (pipe : ℕ) (f : ClientConnection → ClientConnection) (m : List (String × ClientConnection))
    → ((c : ClientConnection) → (f c).client_id ≡ c.client_id)
    → Table m
    → Table (at_pipe pipe f m)
unfolding at_pipe
at_pipe-Table pipe f [] same t = tt
at_pipe-Table pipe f ((k, c) ∷ m) same t = elim (Bool-cases (c.pipe == pipe)) [
  | inl e ↦
      rw e (t.0 ∙ sym (same c), lookup-at_pipe pipe f k m t.1, at_pipe-Table pipe f m same t.2)
  | inr e ↦ rw e (t.0, lookup-at_pipe pipe f k m t.1, at_pipe-Table pipe f m same t.2)
]

start_read-client_id :
    (r : ReadStart) (c : ClientConnection) → (start_read c r).client_id ≡ c.client_id
unfolding start_read
start_read-client_id started c = ground arith
start_read-client_id broken c = ground arith
start_read-client_id failed c = ground arith

module _ {J : Type 0} where
  rename-Table :
      (s : Server J) (conn : ClientConnection) (new_id : String)
      → Table s.clients
      → Table (rename s conn new_id).0.clients
  unfolding rename
  rename-Table s conn new_id t =
      elim (Bool-cases (is_empty new_id || str_eq new_id conn.client_id)) [
        | inl e ↦ rw e t
        | inr e ↦ elim (Option-cases (lookup conn.client_id s.clients)) [
          | inl absent ↦ rw (e, absent) t
          | inr (moved, found) ↦
              rw (e, found)
                (put-Table new_id (record moved { client_id = new_id })
                  (erase conn.client_id s.clients) refl (erase-Table conn.client_id s.clients t))
        ]
      ]

  disconnect-Table :
      (s : Server J) (id : String)
      → Table s.clients
      → Table (handle_client_disconnect s id).0.clients
  unfolding handle_client_disconnect
  disconnect-Table s id t = elim (Option-cases (lookup id s.clients)) [
    | inl absent ↦ rw (handle_client_disconnect, absent) t
    | inr (conn, found) ↦ rw (handle_client_disconnect, found) (erase-Table id s.clients t)
  ]

  connection-Table :
      (s : Server J) (pipe : ℕ) (r : ReadStart)
      → Table s.clients
      → Table (handle_new_connection s pipe r).0.clients
  unfolding handle_new_connection
  connection-Table s pipe r t =
      let conn : ClientConnection = record {
        pipe = pipe;
        client_id = temp_id s.next_id;
        reading = false;
        writing = false;
        pending_disconnect = false;
      } in
      put-Table (temp_id s.next_id) (start_read conn r) s.clients
        (sym (start_read-client_id r conn)) t

module _ {J : Type 0} ⦃ops : JsonOps J⦄ (texts : JsonText J) where
  text-Table :
      (s : Server J) (conn : ClientConnection) (json_str : List ℕ)
      → Table s.clients
      → Table (handle_text texts s conn json_str).0.clients
  unfolding handle_text accept
  text-Table s conn json_str t = elim (Option-cases (decode texts json_str)) [
    | inl bad ↦ rw (handle_text, bad) t
    | inr (msg, e) ↦ elim (Bool-cases (str_eq msg.type "register")) [
      | inr else_type ↦ rw (handle_text, e, else_type) t
      | inl reg ↦ elim (Option-cases (value_text msg.payload "mod_id" "")) [
        | inl thrown ↦ rw (handle_text, e, reg, thrown) t
        | inr (new_id, v) ↦ rw (handle_text, e, reg, v) (rename-Table s conn new_id t)
      ]
    ]
  ]

  received-Table :
      (s : Server J) (conn : ClientConnection) (r : Received)
      → Table s.clients
      → Table (handle_received texts s conn r).0.clients
  unfolding handle_received
  received-Table s conn too_short t = t
  received-Table s conn incomplete t = t
  received-Table s conn out_of_bounds t = t
  received-Table s conn (content json_str) t = text-Table s conn json_str t

  complete-Table :
      (s : Server J) (conn : ClientConnection) (buffer : List ℕ) (n : ℕ) (next : ReadStart)
      → Table s.clients
      → Table (complete_read texts s conn buffer n next).0.clients
  unfolding complete_read process_received_data
  complete-Table s conn buffer n next t =
      let idle = record s {
        clients = at_pipe conn.pipe (λ c. record c { reading = false }) s.clients;
      } in
      let idle_table =
        at_pipe-Table conn.pipe (λ c. record c { reading = false }) s.clients (λ c. refl) t in
      elim (Bool-cases (ltb 0 n)) [
        | inl some_bytes ↦ rw some_bytes (
            at_pipe-Table conn.pipe (λ c. start_read c next)
              (process_received_data texts idle (record conn { reading = false }) buffer
                n).0.clients
              (start_read-client_id next)
              (received-Table idle (record conn { reading = false }) (extract buffer n) idle_table))
        | inr no_bytes ↦ rw no_bytes (
            at_pipe-Table conn.pipe (λ c. start_read c next) idle.clients
              (start_read-client_id next) idle_table)
      ]

  completion-Table :
      (s : Server J) (conn : ClientConnection) (completion : Completion) (next : ReadStart)
      → Table s.clients
      → Table (handle_completion texts s conn completion next).0.clients
  unfolding handle_completion
  completion-Table s conn pipe_broken next t = disconnect-Table s conn.client_id t
  completion-Table s conn other_error next t = t
  completion-Table s conn (transferred buffer n) next t = elim (Bool-cases conn.reading) [
    | inl reading ↦ rw reading (complete-Table s conn buffer n next t)
    | inr idle ↦ elim (Bool-cases conn.writing) [
      | inl writing ↦
          rw (idle, writing)
            (at_pipe-Table conn.pipe (λ c. record c { writing = false }) s.clients (λ c. refl) t)
      | inr nothing ↦ rw (idle, nothing) t
    ]
  ]

  io-Table :
      (s : Server J) (id : String) (completion : Completion) (next : ReadStart)
      → Table s.clients
      → Table (handle_client_io texts s id completion next).0.clients
  unfolding handle_client_io
  io-Table s id completion next t = elim (Option-cases (lookup id s.clients)) [
    | inl absent ↦ rw (handle_client_io, absent) t
    | inr (conn, found) ↦ rw (handle_client_io, found) (completion-Table s conn completion next t)
  ]

  -- What happens to a server: its calls and the events of its I/O thread.
  pub data Event : Type 0 where
    starts : String → Event
    stops pulls : Event
    connects : ℕ → ReadStart → Event
    completes : String → Completion → ReadStart → Event

  unfoldable pub step : Server J → Event → Server J
  unfolding start stop handle_new_connection handle_client_io get_pending_messages
  step s (starts game_name) = (start s game_name).0
  step s stops = (stop s).0
  step s pulls = (get_pending_messages s).0
  step s (connects pipe r) = (handle_new_connection s pipe r).0
  step s (completes id completion next) = (handle_client_io texts s id completion next).0

  unfoldable pub run : Server J → List Event → Server J
  unfolding step
  run s [] = s
  run s (e ∷ es) = run (step s e) es

  step-Table : (s : Server J) (e : Event) → Table s.clients → Table (step s e).clients
  unfolding step start stop get_pending_messages
  step-Table s (starts game_name) t = elim (Bool-cases s.running) [
    | inl on ↦ rw on t
    | inr off ↦ rw off t
  ]
  step-Table s stops t = elim (Bool-cases s.running) [ inl on ↦ rw on tt | inr off ↦ rw off t ]
  step-Table s pulls t = t
  step-Table s (connects pipe r) t = connection-Table s pipe r t
  step-Table s (completes id completion next) t = io-Table s id completion next t

  -- From a table in which every connection stands under its own id and no id stands twice, the
  -- starts, stops and reads of a server and any sequence of connections, completed, failed and
  -- broken operations, whatever bytes they bring, lead to such a table.
  pub run-Table : (s : Server J) (es : List Event) → Table s.clients → Table (run s es).clients
  unfolding run
  run-Table s [] t = t
  run-Table s (e ∷ es) t = run-Table (step s e) es (step-Table s e t)
