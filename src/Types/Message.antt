-- ===== src/Types/Message.antt =====
-- `IPCMessage` of ap_types.h, and its text form.
use apf_ue4ss.Prelude.{String, ◌≡◌, Option, some, [], ◌∷◌, ◌>>=◌}
use apf_ue4ss.Prelude.Dict.{lookup, string_eq}
use apf_ue4ss.Types.Json.{JsonOps, JsonLaws, value, value_text}

pub record IpcMessage (J : Type 0) : Type 0 where
  pub type : String
  pub source : String
  pub target : String
  pub payload : J

module _ {J : Type 0} ⦃ops : JsonOps J⦄ where
  unfoldable pub to_json : IpcMessage J → J
  to_json m = ops.object (
      ("type", ops.text m.type)
      ∷ ("source", ops.text m.source)
      ∷ ("target", ops.text m.target)
      ∷ ("payload", m.payload)
      ∷ [])

  -- `none` stands for the exception of a member of the wrong type.
  unfoldable pub from_json : J → Option (IpcMessage J)
  unfolding value_text value
  from_json j = do
    type ← value_text j "type" ""
    source ← value_text j "source" ""
    target ← value_text j "target" ""
    payload ← value (λ v. some v) j "payload" (ops.object [])
    some (record { type = type; source = source; target = target; payload = payload })

  -- A message survives the trip through the pipe.
  pub from_json-to_json : JsonLaws ops → (m : IpcMessage J) → from_json (to_json m) ≡ some m
  unfolding from_json to_json lookup
  from_json-to_json laws m = simp (laws.is_object-object, laws.member-object, laws.as_text-text)
