-- ===== src/Router/Execution.antt =====
-- From the receipt of an item in ap_message_router.cpp to the call that the client makes for it in
-- ap_action_executor.cpp.
use apf_ue4ss.Prelude.{String, ◌≡◌, ◌≢◌, none, some, List, [], ◌∷◌}
use apf_ue4ss.Prelude.Int.{ℤ}
use apf_ue4ss.Types.{ActionArg}
use apf_ue4ss.Types.Json.{JsonOps}
use apf_ue4ss.Capabilities.{Capabilities}
use apf_ue4ss.Router.{Router}

module _ {J : Type 0} ⦃ops : JsonOps J⦄ where
  -- What stands for the value of an argument when its action runs: the id, the name or the
  -- progression count of the item for a placeholder, and the value itself for all else.
  pub data Filled (id : ℤ) (name : String) (count : ℤ) : J → J → Type 0 where
    the_id :
        (v : J) → ops.as_text v ≡ some "<GET_ITEM_ID>" → Filled id name count v (ops.integer id)
    the_name :
        (v : J) → ops.as_text v ≡ some "<GET_ITEM_NAME>" → Filled id name count v (ops.text name)
    the_count :
        (v : J)
        → ops.as_text v ≡ some "<GET_PROGRESSION_COUNT>"
        → Filled id name count v (ops.integer count)
    no_text : (v : J) → ops.as_text v ≡ none → Filled id name count v v
    plain :
        (v : J) (s : String)
        → ops.as_text v ≡ some s
        → s ≢ "<GET_ITEM_ID>"
        → s ≢ "<GET_ITEM_NAME>"
        → s ≢ "<GET_PROGRESSION_COUNT>"
        → Filled id name count v v

  -- The same arguments in the same order, with their names and types, and with values filled in.
  pub data AllFilled (id : ℤ) (name : String) (count : ℤ)
      : List (ActionArg J) → List (ActionArg J) → Type 0 where
    no_args : AllFilled id name count [] []
    one_more :
        (arg : ActionArg J) (v : J) (args filled : List (ActionArg J))
        → Filled id name count arg.value v
        → AllFilled id name count args filled
        → AllFilled id name count (arg ∷ args) (record arg { value = v } ∷ filled)
