-- ===== src/Actions/Payload.antt =====
-- From the EXECUTE_ACTION message of ap_message_router.cpp to the call in ap_action_executor.cpp.
use apf_ue4ss.Prelude.{String, false, Option, some, List, [], ◌∷◌, map, ◌≡◌, refl}
use apf_ue4ss.Prelude.Int.{ℤ}
use apf_ue4ss.Prelude.Text.{is_empty}
use apf_ue4ss.Prelude.Dict.{lookup, string_eq}
use apf_ue4ss.Types.{ActionArg, ItemOwnership}
use apf_ue4ss.Types.Enums.{ArgType, string, number, boolean, property, arg_type_to_string}
use apf_ue4ss.Types.Json.{JsonOps, JsonLaws, value, value_text, value_integer, array_at}
use apf_ue4ss.Router.{arg_json, execute_action}
use apf_ue4ss.Actions.{
  Lua, parse_arg_type, read_arg, read_args, read_request, execute, execute_request,
  execute_from_payload,
}

-- The client reads the names of the types that the framework writes.
parse_arg_type-to_string : (t : ArgType) → parse_arg_type (arg_type_to_string t) ≡ t
unfolding parse_arg_type arg_type_to_string
parse_arg_type-to_string string = refl
parse_arg_type-to_string number = refl
parse_arg_type-to_string boolean = refl
parse_arg_type-to_string property = refl

module _ {J : Type 0} ⦃ops : JsonOps J⦄ (laws : JsonLaws ops) where
  arg_back : (arg : ActionArg J) → read_arg (arg_json arg) ≡ some arg
  unfolding read_arg arg_json lookup value_text value
  arg_back arg = simp (
    read_arg, value, laws.is_object-object, laws.member-object, laws.as_text-text,
    parse_arg_type-to_string,
  )

  args_back : (args : List (ActionArg J)) → read_args (map arg_json args) ≡ some args
  unfolding read_args
  args_back [] = refl
  args_back (arg ∷ args) = rw (read_args, arg_back arg, args_back args) refl

  -- What the router sends for an item with an action, the client executes: that action, with the
  -- same arguments in the same order, for the same id and name, whatever the text of the sender and
  -- whatever Lua does.
  pub execute_from_payload-execute_action :
      {V : Type 0} (what : String) (lua : Option (Lua J V)) (item : ItemOwnership J) (item_id : ℤ)
      (item_name sender_name : String) (args : List (ActionArg J))
      → is_empty item.action ≡ false
      → execute_from_payload what lua
          (execute_action item item_id item_name sender_name args).payload
        ≡ execute lua item.action args item_id item_name
  unfolding execute_from_payload execute_action read_request execute_request value_text
      value_integer array_at lookup
  execute_from_payload-execute_action what lua item item_id item_name sender_name args h = simp (
    execute_from_payload,
    value,
    array_at,
    laws.is_object-object,
    laws.member-object,
    laws.as_text-text,
    laws.as_integer-integer,
    laws.as_array-array,
    h,
    args_back args,
  )
