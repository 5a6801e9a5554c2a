-- ===== src/Pipe/Server/Authentic.antt =====
-- Whose name stands on a message that ap_ipc_server.cpp queues.
use apf_ue4ss.Prelude.{
  ℕ, String, false, ◌||◌, ◌≡◌, refl, some, List, [], ◌∷◌, ◌⊎◌, ap, Bool-cases, Option-cases, inl,
  inr,
}
use apf_ue4ss.Prelude.Text.{str_eq, is_empty}
use apf_ue4ss.Prelude.Dict.{string_eq, lookup, erase, lookup-put_self}
use apf_ue4ss.Types.Json.{JsonOps, value_text}
use apf_ue4ss.Types.Message.{IpcMessage}
use apf_ue4ss.Queue.{push}
use apf_ue4ss.Pipe.{
  JsonText, decode, extract, Received, too_short, incomplete, out_of_bounds, content,
}
use apf_ue4ss.Pipe.Server.{ClientConnection, Server, Effect, rename, evicted, accept}
use apf_ue4ss.Pipe.Server.Messages.{handle_text, handle_received, process_received_data}

-- Either nothing is queued, or one message whose sender is an id under which the connection with
-- this pipe stands.
unfoldable pub Authentic : {J : Type 0} → Server J → ℕ → Server J → Type 0
Authentic s pipe s' =
    (s'.incoming ≡ s.incoming)
    ⊎ ((msg : IpcMessage _) × (s'.incoming ≡ (push s.incoming msg).0)
        × ((conn : ClientConnection) × (lookup msg.source s'.clients ≡ some conn)
            × (conn.pipe ≡ pipe)))

module _ {J : Type 0} where
  rename-id :
      (s : Server J) (conn : ClientConnection) (new_id : String)
      → lookup conn.client_id s.clients ≡ some conn
      → ((rename s conn new_id).0.incoming ≡ s.incoming)
        × ((c : ClientConnection) × (lookup
                (rename s conn new_id).2
                (rename s conn new_id).0.clients
              ≡ some c)
            × (c.pipe ≡ conn.pipe))
  unfolding rename
  rename-id s conn new_id h = elim (Bool-cases (is_empty new_id || str_eq new_id conn.client_id)) [
    | inl e ↦ rw (rename, e) (refl, (conn, h, refl))
    | inr e ↦
        rw (rename, e, h)
          (
            refl,
            (
              record conn { client_id = new_id },
              lookup-put_self new_id (record conn { client_id = new_id })
                  (erase conn.client_id s.clients),
              refl,
            ),
          )
  ]

module _ {J : Type 0} ⦃ops : JsonOps J⦄ (texts : JsonText J) where
  text-Authentic :
      (s : Server J) (conn : ClientConnection) (json_str : List ℕ)
      → lookup conn.client_id s.clients ≡ some conn
      → Authentic s conn.pipe (handle_text texts s conn json_str).0
  unfolding handle_text accept Authentic
  text-Authentic s conn json_str h = elim (Option-cases (decode texts json_str)) [
    | inl bad ↦ rw (handle_text, bad) (inl refl)
    | inr (msg, e) ↦ elim (Bool-cases (str_eq msg.type "register")) [
      | inr else_type ↦
          rw (handle_text, e, else_type)
            (inr (record msg { source = conn.client_id }, refl, (conn, h, refl)))
      | inl reg ↦ elim (Option-cases (value_text msg.payload "mod_id" "")) [
        | inl thrown ↦ rw (handle_text, e, reg, thrown) (inl refl)
        | inr (new_id, v) ↦
            let r = rename-id s conn new_id h in
            rw (handle_text, e, reg, v)
              (inr (
                record msg { source = (rename s conn new_id).2 },
                ap (λ q. (push q (record msg { source = (rename s conn new_id).2 })).0) r.0,
                r.1,
              ))
      ]
    ]
  ]

  received-Authentic :
      (s : Server J) (conn : ClientConnection) (r : Received)
      → lookup conn.client_id s.clients ≡ some conn
      → Authentic s conn.pipe (handle_received texts s conn r).0
  unfolding handle_received Authentic
  received-Authentic s conn too_short h = inl refl
  received-Authentic s conn incomplete h = inl refl
  received-Authentic s conn out_of_bounds h = inl refl
  received-Authentic s conn (content json_str) h = text-Authentic s conn json_str h

  -- Whatever bytes a connection of the table sends, the server queues at most one message for them,
  -- and its sender, whatever the JSON says, is the id under which this very connection stands
  -- afterwards.
  pub process_received_data-Authentic :
      (s : Server J) (conn : ClientConnection) (read_buffer : List ℕ) (n : ℕ)
      → lookup conn.client_id s.clients ≡ some conn
      → Authentic s conn.pipe (process_received_data texts s conn read_buffer n).0
  unfolding process_received_data
  process_received_data-Authentic s conn read_buffer n h =
      received-Authentic s conn (extract read_buffer n) h

  -- A registration under an id that another connection holds takes that id over: the other pipe is
  -- closed, without a call of the disconnect handler, and the id leads to the new connection.
  pub register-takes_over :
      (s : Server J) (conn old : ClientConnection) (json_str : List ℕ) (msg : IpcMessage J)
      (new_id : String)
      → lookup conn.client_id s.clients ≡ some conn
      → decode texts json_str ≡ some msg
      → msg.type ≡ "register"
      → value_text msg.payload "mod_id" "" ≡ some new_id
      → is_empty new_id ≡ false
      → str_eq new_id conn.client_id ≡ false
      → lookup new_id (erase conn.client_id s.clients) ≡ some old
      → ((handle_text texts s conn json_str).1 ≡ Effect.closed old.pipe ∷ [])
        × (lookup new_id (handle_text texts s conn json_str).0.clients
            ≡ some (record conn { client_id = new_id }))
  unfolding handle_text accept rename evicted
  register-takes_over s conn old json_str msg new_id h e reg v full other taken =
      rw (handle_text, e, reg, v, rename, full, other, h, evicted, taken)
        (
          refl,
          lookup-put_self new_id (record conn { client_id = new_id })
              (erase conn.client_id s.clients),
        )
