-- ===== src/ClientMessages/Steps.antt =====
-- What the pieces of `handle_message` (APClientLib/src/main.cpp) do one by one: those that leave the
-- lifecycle state, and those that end well.
use Prim.Native.String.{◌++◌ as append_text}
use apf_ue4ss.Prelude.{
  ℕ, String, Bool, true, false, Option, some, List, [], ◌∷◌, ◌++◌, if◌then◌else◌, ◌≡◌, refl, ◌∙◌,
}
use apf_ue4ss.Prelude.Dict.{string_eq}
use apf_ue4ss.Types.Json.{JsonOps}
use apf_ue4ss.Types.Message.{IpcMessage}
use apf_ue4ss.Pipe.{JsonText, encode}
use apf_ue4ss.Pipe.Client.{written, send_message}
use apf_ue4ss.Actions.{Lua, CallResult, valid, invalid, sol_error, exception, unknown_error}
use apf_ue4ss.ClientMessages.{
  Callback, on_message, Argument, text, json, Callbacks, Mod, ModEffect, called, pipe, Piece,
  nothing, does, and_then, send, callback_error, callback_name, notify_framework_of_error,
  callback_failed, settle, invoke_optional_callback, by_type, handle_message,
}

-- The calls of a callback that does not fail.
abbrev pub calls : {J : Type 0} → Callbacks J → Callback → List (Argument J) → List (ModEffect J)
calls callbacks callback args =
    if callbacks.registered callback then called callback args ∷ [] else []

pub if-true {ℓ} : {A : Type ℓ} (b : Bool) (x y : A) → b ≡ true → (if b then x else y) ≡ x
if-true b x y h = rw h refl

module _ {J : Type 0} where
  abbrev pub Keeps : Piece J → Type 0
  Keeps p = (s : Mod J) → (p s).0.current_lifecycle_state ≡ s.current_lifecycle_state

  kept_if :
      (b : Bool) (x y : Mod J × List (ModEffect J) × Bool) (state : String)
      → x.0.current_lifecycle_state ≡ state
      → y.0.current_lifecycle_state ≡ state
      → (if b then x else y).0.current_lifecycle_state ≡ state
  kept_if true x y state hx hy = hx
  kept_if false x y state hx hy = hy

  pub if-Keeps : (b : Bool) (p q : Piece J) → Keeps p → Keeps q → Keeps (if b then p else q)
  if-Keeps true p q hp hq = hp
  if-Keeps false p q hp hq = hq

  pub and_then-Keeps : (p q : Piece J) → Keeps p → Keeps q → Keeps (and_then p q)
  unfolding and_then
  and_then-Keeps p q hp hq s = kept_if (p s).2 _ _ _ (hq (p s).0 ∙ hp s) (hp s)

  if-done :
      (b : Bool) (p : Piece J) (s : Mod J) (es : List (ModEffect J))
      → p s ≡ (s, es, true)
      → (if b then p else nothing) s ≡ (s, if b then es else [], true)
  if-done true p s es h = h
  if-done false p s es h = refl

  -- Effects in front of those of a piece that has run.
  abbrev pub behind :
      List (ModEffect J) → Mod J × List (ModEffect J) × Bool → Mod J × List (ModEffect J) × Bool
  behind es r = (r.0, es ++ r.1, r.2)

  -- A piece that returns is followed by the next.
  pub and_then-done :
      (p q : Piece J) (s s' : Mod J) (es : List (ModEffect J))
      → p s ≡ (s', es, true)
      → and_then p q s ≡ behind es (q s')
  unfolding and_then
  and_then-done p q s s' es h = rw h refl

module _ {J : Type 0} ⦃ops : JsonOps J⦄ (texts : JsonText J) (deliver : List ℕ → Bool) where
  send-Keeps : (msg : IpcMessage J) → Keeps (send texts deliver msg)
  unfolding send
  send-Keeps msg s = kept_if s.client.connected _ _ _ refl refl

  pub settle-Keeps :
      (callback : Callback) (result : CallResult) → Keeps (settle texts deliver callback result)
  unfolding settle callback_failed notify_framework_of_error
  settle-Keeps callback valid s = refl
  settle-Keeps callback (invalid what) s =
      send-Keeps
        (callback_error texts deliver s.mod_id "callback_error"
          (append_text (callback_name callback) (append_text ": " what)))
        s
  settle-Keeps callback (sol_error what) s =
      send-Keeps
        (callback_error texts deliver s.mod_id "callback_exception"
          (append_text (callback_name callback) (append_text ": " what)))
        s
  settle-Keeps callback (exception what) s =
      send-Keeps
        (callback_error texts deliver s.mod_id "callback_exception"
          (append_text (callback_name callback) (append_text ": " what)))
        s
  settle-Keeps callback unknown_error s = refl

  pub quiet :
      (callbacks : Callbacks J) (callback : Callback) (args : List (Argument J)) (s : Mod J)
      → callbacks.outcome callback args ≡ valid
      → invoke_optional_callback texts deliver callbacks callback args s
        ≡ (s, calls callbacks callback args, true)
  unfolding invoke_optional_callback and_then settle
  quiet callbacks callback args s h =
      if-done (callbacks.registered callback)
        (and_then (does (called callback args))
          (settle texts deliver callback (callbacks.outcome callback args)))
        s (called callback args ∷ []) (rw h refl)

  pub sent_back :
      (msg : IpcMessage J) (s : Mod J) (bytes : List ℕ)
      → s.client.connected ≡ true
      → encode texts msg ≡ some bytes
      → deliver bytes ≡ true
      → send texts deliver msg s ≡ (s, pipe (written bytes) ∷ [], true)
  unfolding send send_message
  sent_back msg s bytes on code done = simp (on, code, done)

module _ {J V : Type 0} ⦃ops : JsonOps J⦄ (texts : JsonText J) (deliver : List ℕ → Bool)
    (what : String) (lua : Option (Lua J V)) (callbacks : Callbacks J) where
  pub message_lem :
      (msg : IpcMessage J) (s : Mod J)
      → callbacks.outcome on_message (text msg.type ∷ json msg.payload ∷ []) ≡ valid
      → handle_message texts deliver what lua callbacks msg s
        ≡ behind
            (calls callbacks on_message (text msg.type ∷ json msg.payload ∷ []))
            (by_type texts deliver what lua callbacks msg s)
  unfolding handle_message
  message_lem msg s ok =
      let args = text msg.type ∷ json msg.payload ∷ [] in
      and_then-done (invoke_optional_callback texts deliver callbacks on_message args)
        (by_type texts deliver what lua callbacks msg) s s (calls callbacks on_message args)
        (quiet texts deliver callbacks on_message args s ok)
