-- ===== src/Pipe/Client/Delivery.antt =====
-- From `queue_write` of ap_ipc_server.cpp to the handler of ap_ipc_client.cpp, and back.
use apf_ue4ss.Prelude.{
  ℕ, ◌+◌, ◌<◌, ltb, Bool, true, false, not, ◌||◌, ◌≡◌, refl, Option, some, List, [], ◌∷◌, ◌++◌, map,
  length, if◌then◌else◌, arith, ap, ◌∙◌, if-false, inl, inr, Bool-cases, leb, leb→le, ◌≤◌,
}
use apf_ue4ss.Prelude.Text.{str_eq}
use apf_ue4ss.Types.Json.{JsonOps, JsonLaws}
use apf_ue4ss.Types.Message.{IpcMessage, to_json, from_json-to_json}
use apf_ue4ss.Pipe.{JsonText, encode, decode, frame, length_prefix, word, buffer_size}
use apf_ue4ss.Pipe.Laws.{frame_lem, extract-frame}
use apf_ue4ss.Pipe.Server.{
  ClientConnection, Server, Effect, ReadStart, started, Completion, transferred, other_error,
  accept,
}
use apf_ue4ss.Pipe.Server.Messages as server
use apf_ue4ss.Pipe.Server.Messages.{queue_write}
use apf_ue4ss.Pipe.Client.{
  Client, ClientEffect, message_handler, read_file, handle_text, handle_received,
  process_received_data, handle_completion, check_read_completion, start_read, send_message, poll,
  resume, dispatch, Opening,
}

leb-over : (a b : ℕ) → leb a b ≡ false → b < a
leb-over a b h = ground arith

-- What the documentation of ReadFile says of a pipe in message mode: a message that fits into the
-- buffer is read whole, in front of what stood in the buffer, and one that does not is an error
-- (ERROR_MORE_DATA).
pub record MessagePipe (read : List ℕ → Completion) : Type 0 where
  pub whole :
      (bytes : List ℕ)
      → length bytes ≤ buffer_size
      → (stale : List ℕ) × (read bytes ≡ transferred (bytes ++ stale) (length bytes))
  pub too_long : (bytes : List ℕ) → buffer_size < length bytes → read bytes ≡ other_error

module _ {J : Type 0} where
  resumed :
      (c : Client J) (queue : List (IpcMessage J))
      → c.connected ≡ true
      → resume (record c { reading = false; message_queue = queue }, []) started
        ≡ (record c { reading = true; message_queue = queue }, read_file ∷ [])
  unfolding resume start_read
  resumed c queue on = rw on refl

  dispatched :
      (c : Client J) (queue : List (IpcMessage J))
      → c.connected ≡ true
      → c.reading ≡ true
      → dispatch (record c { reading = true; message_queue = queue }, read_file ∷ [])
        ≡ (record c { message_queue = [] }, read_file ∷ map (λ msg. message_handler msg) queue)
  unfolding dispatch
  dispatched c queue on reads = rw (on, reads) refl

module _ {J : Type 0} ⦃ops : JsonOps J⦄ (texts : JsonText J) where
  decode-dump :
      (m : IpcMessage J) (json_str : List ℕ)
      → JsonLaws ops
      → texts.parse json_str ≡ some (to_json m)
      → decode texts json_str ≡ some m
  unfolding decode
  decode-dump m json_str laws h = rw (decode, h) (from_json-to_json laws m)

  received-frame :
      (c : Client J) (m : IpcMessage J) (json_str stale bytes : List ℕ)
      → JsonLaws ops
      → texts.parse json_str ≡ some (to_json m)
      → 4 + length json_str < word
      → frame json_str ≡ some bytes
      → process_received_data texts c (bytes ++ stale) (length bytes)
        ≡ (record c { message_queue = c.message_queue ++ m ∷ [] }, [])
  unfolding process_received_data handle_received handle_text
  received-frame c m json_str stale bytes laws h small e =
      rw
        (
          process_received_data,
          extract-frame json_str stale bytes small e,
          handle_text,
          decode-dump m json_str laws h,
        )
        refl

  positive-frame :
      (json_str : List ℕ) → ltb 0 (length (length_prefix (length json_str) ++ json_str)) ≡ true
  unfolding length_prefix
  positive-frame json_str = ground arith

  completed-read :
      (c : Client J) (buffer : List ℕ) (n : ℕ) (queue : List (IpcMessage J))
      → c.connected ≡ true
      → ltb 0 n ≡ true
      → process_received_data texts (record c { reading = false }) buffer n
        ≡ (record c { reading = false; message_queue = queue }, [])
      → handle_completion texts c (some (transferred buffer n)) started
        ≡ (record c { reading = true; message_queue = queue }, read_file ∷ [])
  unfolding handle_completion
  completed-read c buffer n queue on full e =
      let idle = record c { reading = false } in
      ap (λ b. resume (if b then process_received_data texts idle buffer n else (idle, [])) started)
        full
      ∙ ap (λ r. resume r started) e
      ∙ resumed c queue on

  poll-reading :
      (c : Client J) (completion : Option Completion) (next : ReadStart) (opening : Opening)
      → c.connected ≡ true
      → c.reading ≡ true
      → poll texts c completion next opening ≡ dispatch (handle_completion texts c completion next)
  unfolding poll check_read_completion
  poll-reading c completion next opening on reads =
      if-false (not c.connected) _ _ (ap not on)
      ∙ ap (λ r. dispatch r) (if-false (not c.reading || not c.connected) _ _ (rw (on, reads) refl))

  delivered :
      (c : Client J) (m : IpcMessage J) (json_str stale : List ℕ) (opening : Opening)
      → JsonLaws ops
      → c.connected ≡ true
      → c.reading ≡ true
      → texts.parse json_str ≡ some (to_json m)
      → 4 + length json_str < word
      → let bytes = length_prefix (length json_str) ++ json_str in
        poll texts c (some (transferred (bytes ++ stale) (length bytes))) started opening ≡ (
          record c { message_queue = [] },
          read_file ∷ map (λ msg. message_handler msg) (c.message_queue ++ m ∷ []),
        )
  delivered c m json_str stale opening laws on reads h small =
      let bytes = length_prefix (length json_str) ++ json_str in
      let framed = frame_lem json_str small in
      poll-reading c (some (transferred (bytes ++ stale) (length bytes))) started opening on reads
      ∙ ap (λ r. dispatch r)
          (completed-read c (bytes ++ stale) (length bytes) (c.message_queue ++ m ∷ []) on
            (positive-frame json_str)
            (received-frame (record c { reading = false }) m json_str stale bytes laws h small
              framed))
      ∙ dispatched c (c.message_queue ++ m ∷ []) on reads

  failed_read :
      (c : Client J) (opening : Opening)
      → c.connected ≡ true
      → c.reading ≡ true
      → poll texts c (some other_error) started opening ≡ (
        record c { reading = false; message_queue = [] },
        map (λ msg. message_handler msg) c.message_queue,
      )
  unfolding handle_completion dispatch
  failed_read c opening on reads = poll-reading c (some other_error) started opening on reads

  length-frame :
      (json_str : List ℕ)
      → length (length_prefix (length json_str) ++ json_str) ≡ 4 + length json_str
  unfolding length_prefix
  length-frame json_str = omega arith

  -- For a message that the server writes to a connection that is not about to close, whose JSON
  -- text parses back and has fewer than 2^32 - 4 bytes: if the read of the connected client completes
  -- on the bytes written as a read of a message pipe does, and the next read starts, then the next
  -- `poll` hands the message to the handler, behind those that wait, if its bytes fit into the read
  -- buffer; and if they do not, only those that wait, and no read is under way any more.
  pub poll-queue_write :
      (deliver : ℕ → List ℕ → Bool) (conn : ClientConnection) (c : Client J) (m : IpcMessage J)
      (json_str : List ℕ) (read : List ℕ → Completion) (opening : Opening)
      → JsonLaws ops
      → MessagePipe read
      → conn.pending_disconnect ≡ false
      → c.connected ≡ true
      → c.reading ≡ true
      → texts.dump (to_json m) ≡ some json_str
      → texts.parse json_str ≡ some (to_json m)
      → 4 + length json_str < word
      → (bytes : List ℕ) × ((queue_write texts deliver conn m).1
          ≡ Effect.written conn.pipe bytes ∷ [])
        × (poll texts c (some (read bytes)) started opening ≡ (
            if leb (4 + length json_str) buffer_size
            then (
              record c { message_queue = [] },
              read_file ∷ map (λ msg. message_handler msg) (c.message_queue ++ m ∷ []),
            )
            else (
              record c { reading = false; message_queue = [] },
              map (λ msg. message_handler msg) c.message_queue,
            )))
  unfolding queue_write encode
  poll-queue_write deliver conn c m json_str read opening laws reads_messages alive on reads d h
        small =
      let bytes = length_prefix (length json_str) ++ json_str in
      let framed = frame_lem json_str small in
      let size = length-frame json_str in
      (
        bytes,
        rw (alive, encode, d, framed) refl,
        elim (Bool-cases (leb (4 + length json_str) buffer_size)) [
          | inl fits ↦
              let (stale, e) =
                reads_messages.whole bytes
                  (leb→le (length bytes) buffer_size (ap (λ n. leb n buffer_size) size ∙ fits)) in
              ap (λ r. poll texts c (some r) started opening) e
              ∙ delivered c m json_str stale opening laws on reads h small
              ∙ rw fits refl
          | inr large ↦
              ap (λ r. poll texts c (some r) started opening)
                (reads_messages.too_long bytes
                  (leb-over (length bytes) buffer_size (ap (λ n. leb n buffer_size) size ∙ large)))
              ∙ failed_read c opening on reads
              ∙ rw large refl
        ],
      )

  -- The bytes that a connected client writes for a message are, read by the server, the same
  -- message under the id of the client's connection, if it is no registration, its
  -- JSON text parses back and is shorter
  -- than 2^32 - 4 and the bytes written are in front of the buffer.
  pub process_received_data-send_message :
      (deliver : List ℕ → Bool) (c : Client J) (s : Server J) (conn : ClientConnection)
      (m : IpcMessage J) (json_str stale : List ℕ)
      → JsonLaws ops
      → c.connected ≡ true
      → str_eq m.type "register" ≡ false
      → texts.dump (to_json m) ≡ some json_str
      → texts.parse json_str ≡ some (to_json m)
      → 4 + length json_str < word
      → (deliver (length_prefix (length json_str) ++ json_str) ≡ true)
      → (bytes : List ℕ) × (send_message texts deliver c m
          ≡ (c, ClientEffect.written bytes ∷ [], true))
        × (server.process_received_data texts s conn (bytes ++ stale) (length bytes)
            ≡ (accept s m conn.client_id, []))
  unfolding send_message server.process_received_data server.handle_received encode
  process_received_data-send_message deliver c s conn m json_str stale laws on plain d h small ok =
      let bytes = length_prefix (length json_str) ++ json_str in
      let framed = frame_lem json_str small in
      (
        bytes,
        simp (on, encode, d, framed, ok),
        rw
            (
              extract-frame json_str stale bytes small framed,
              server.handle_text,
              decode-dump m json_str laws h,
              plain,
            )
            refl,
      )

  poll-idle :
      (c : Client J) (completion : Option Completion) (next : ReadStart) (opening : Opening)
      → c.connected ≡ true
      → c.reading ≡ false
      → c.message_queue ≡ []
      → poll texts c completion next opening ≡ (c, [])
  unfolding poll check_read_completion dispatch
  poll-idle c completion next opening on idle empty = rw (on, idle, empty) refl

  -- What a sequence of polls does.
  unfoldable pub poll_all :
      Client J → List (Option Completion × ReadStart × Opening) → Client J × List (ClientEffect J)
  unfolding poll
  poll_all c [] = (c, [])
  poll_all c ((completion, next, opening) ∷ polls) =
      let first = poll texts c completion next opening in
      let rest = poll_all first.0 polls in (rest.0, first.1 ++ rest.1)

  idle-deaf :
      (c : Client J) (polls : List (Option Completion × ReadStart × Opening))
      → c.connected ≡ true
      → c.reading ≡ false
      → c.message_queue ≡ []
      → poll_all c polls ≡ (c, [])
  unfolding poll_all
  idle-deaf c [] on idle empty = refl
  idle-deaf c ((completion, next, opening) ∷ polls) on idle empty =
      simp (poll-idle c completion next opening on idle empty, idle-deaf c polls on idle empty)

  -- A read that ends with another error than a broken pipe (a message that is larger than the
  -- buffer, say) leaves the client connected and deaf: no later `poll`, whatever it meets, delivers
  -- anything or starts a read.
  pub poll-deaf :
      (c : Client J) (next : ReadStart) (opening : Opening)
      → c.connected ≡ true
      → c.reading ≡ true
      → (polls : List (Option Completion × ReadStart × Opening))
      → (poll_all (poll texts c (some other_error) next opening).0 polls).1 ≡ []
  unfolding handle_completion dispatch
  poll-deaf c next opening on reads polls =
      let c' = (dispatch (record c { reading = false }, [])).0 in
      ap (λ r. (poll_all r.0 polls).1) (poll-reading c (some other_error) next opening on reads)
      ∙ ap (λ r. r.1) (idle-deaf c' polls on refl refl)
