-- ===== src/ClientMessages/Lifecycle.antt =====
-- From `broadcast_lifecycle` of ap_message_router.cpp to the state that APClientLib/src/main.cpp
-- caches.
use apf_ue4ss.Prelude.{
  ℕ, String, Bool, Option, some, List, [], ◌∷◌, if◌then◌else◌, ◌≡◌, refl, ap, ◌∙◌,
}
use apf_ue4ss.Prelude.Text.{str_eq}
use apf_ue4ss.Prelude.Dict.{lookup, string_eq}
use apf_ue4ss.Types.Enums.{LifecycleState, lifecycle_state_to_string}
use apf_ue4ss.Types.Json.{JsonOps, JsonLaws, value, value_text}
use apf_ue4ss.Types.Message.{IpcMessage}
use apf_ue4ss.Router.{Router, broadcasted, broadcast, broadcast_lifecycle}
use apf_ue4ss.Pipe.{JsonText}
use apf_ue4ss.Actions.{Lua, valid}
use apf_ue4ss.ClientMessages.{
  Callback, on_message, on_lifecycle, on_state_active, on_state_error, Argument, text, json,
  Callbacks, Mod, called, nothing, does, and_then, after_reading, settle, invoke_optional_callback,
  state_callbacks, lifecycle_changed, cache_state, read_pair, by_type, handle_message,
}
use apf_ue4ss.ClientMessages.Steps.{
  Keeps, if-Keeps, and_then-Keeps, behind, settle-Keeps, message_lem,
}

-- The message of `broadcast_lifecycle`.
abbrev pub lifecycle_message :
    {J : Type 0} ⦃ops : JsonOps J⦄ → LifecycleState → String → IpcMessage J
lifecycle_message ⦃ops = ops⦄ state message = record {
  type = "lifecycle";
  source = "framework";
  target = "broadcast";
  payload =
      ops.object (
        ("state", ops.text (lifecycle_state_to_string state)) ∷ ("message", ops.text message) ∷ []);
}

module _ {J V : Type 0} ⦃ops : JsonOps J⦄ (laws : JsonLaws ops) (texts : JsonText J)
    (deliver : List ℕ → Bool) (what : String) (lua : Option (Lua J V))
    (callbacks : Callbacks J) where
  invoke-Keeps :
      (callback : Callback) (args : List (Argument J))
      → Keeps (invoke_optional_callback texts deliver callbacks callback args)
  unfolding invoke_optional_callback
  invoke-Keeps callback args =
      let end = settle texts deliver callback (callbacks.outcome callback args) in
      if-Keeps (callbacks.registered callback) (and_then (does (called callback args)) end) nothing
        (and_then-Keeps (does (called callback args)) end (λ s. refl)
          (settle-Keeps texts deliver callback (callbacks.outcome callback args)))
        (λ s. refl)

  state_callbacks-Keeps :
      (state message : String) → Keeps (state_callbacks texts deliver callbacks state message)
  unfolding state_callbacks
  state_callbacks-Keeps state message =
      let failed =
        invoke_optional_callback texts deliver callbacks on_state_error (text message ∷ []) in
      if-Keeps (str_eq state "ACTIVE")
        (invoke_optional_callback texts deliver callbacks on_state_active [])
        (if str_eq state "ERROR_STATE" then failed else nothing) (invoke-Keeps on_state_active [])
        (if-Keeps (str_eq state "ERROR_STATE") failed nothing
          (invoke-Keeps on_state_error (text message ∷ [])) (λ s. refl))

  lifecycle_back :
      (state : LifecycleState) (message : String)
      → read_pair {J = J} (lifecycle_message state message).payload "state" "message"
        ≡ some (lifecycle_state_to_string state, message)
  unfolding read_pair value_text lookup
  lifecycle_back state message =
      simp (value, laws.is_object-object, laws.member-object, laws.as_text-text)

  changed-state :
      (state message : String) (s : Mod J)
      → (lifecycle_changed texts deliver callbacks (state, message) s).0.current_lifecycle_state
        ≡ state
  unfolding lifecycle_changed cache_state and_then
  changed-state state message s =
      and_then-Keeps
        (invoke_optional_callback texts deliver callbacks on_lifecycle
          (text state ∷ text message ∷ []))
        (state_callbacks texts deliver callbacks state message)
        (invoke-Keeps on_lifecycle (text state ∷ text message ∷ []))
        (state_callbacks-Keeps state message) (record s { current_lifecycle_state = state })

  by_type-lifecycle :
      (state : LifecycleState) (message : String) (s : Mod J)
      → by_type texts deliver what lua callbacks (lifecycle_message state message) s
        ≡ after_reading
            (read_pair {J = J} (lifecycle_message state message).payload "state" "message")
            (lifecycle_changed texts deliver callbacks)
            s
  unfolding by_type
  by_type-lifecycle state message s = refl

  -- The router broadcasts a lifecycle state as `lifecycle_message`, if it broadcasts at all; behind
  -- this message the client's cached state is that state, however the callbacks for it end, if the
  -- generic callback does not fail.
  pub handle_message-broadcast_lifecycle :
      (r : Router J) (state : LifecycleState) (message : String) (s : Mod J)
      → callbacks.outcome on_message
          (text "lifecycle" ∷ json (lifecycle_message state message).payload ∷ [])
        ≡ valid
      → (broadcast_lifecycle r state message
          ≡ (if r.ipc_broadcast then broadcasted (lifecycle_message state message) ∷ [] else []))
        × ((handle_message texts deliver what lua callbacks
              (lifecycle_message state message)
              s).0.current_lifecycle_state
            ≡ lifecycle_state_to_string state)
  unfolding broadcast_lifecycle broadcast
  handle_message-broadcast_lifecycle r state message s ok = (
    refl,
    ap (λ q. q.0.current_lifecycle_state)
          (message_lem texts deliver what lua callbacks (lifecycle_message state message) s ok
            ∙ ap (behind _) (
                by_type-lifecycle state message s
                ∙ ap (λ o. after_reading o (lifecycle_changed texts deliver callbacks) s)
                    (lifecycle_back state message)))
        ∙ changed-state (lifecycle_state_to_string state) message s,
  )
