-- ===== src/Actions.antt =====
-- APClientLib/src/ap_action_executor.cpp: the client's side of an item, which calls a Lua function.
-- The argument types are those of the framework (`ArgType`, `ActionArg`); Lua, which is not part of
-- the repository, is an interface.
pub mod Paths
pub mod Payload
use Prim.Native.Char.{Char, code}
use Prim.Native.String.{◌++◌ as append_text}
use apf_ue4ss.Prelude.{
  ℕ, ◌==◌, String, Bool, true, false, not, Option, none, some, List, [], ◌∷◌, map, filter,
  if◌then◌else◌, ◌>>=◌,
}
use apf_ue4ss.Prelude.Int.{ℤ, pos}
use apf_ue4ss.Prelude.Text.{str_eq, is_empty}
use apf_ue4ss.Types.{ActionArg}
use apf_ue4ss.Types.Enums.{ArgType, string, number, boolean, property}
use apf_ue4ss.Types.Json.{JsonOps, value, value_text, value_integer, array_at}

-- How a protected call of a function ends: it returns, it fails with a Lua error, or a C++ exception
-- comes out of it.
pub data CallResult : Type 0 where
  valid unknown_error : CallResult
  invalid sol_error exception : String → CallResult

-- What the code uses of sol2, at the state of a call: `index` is none of what is no table. The
-- last three are the tests and the text of nlohmann::json that it uses besides.
pub record Lua (J V : Type 0) : Type 0 where
  pub nil : V
  pub global : String → V
  pub index : V → Option (String → V)
  pub is_function : V → Bool
  pub call : V → List V → CallResult
  pub from_text : String → V
  pub from_integer : ℤ → V
  pub from_boolean : Bool → V
  pub from_number : J → V
  pub integer_of : J → Option ℤ
  pub is_number_float : J → Bool
  pub dump : J → String

pub record ClientActionResult : Type 0 where
  pub success : Bool
  pub error : String
  pub item_id : ℤ
  pub item_name : String

unfoldable pub parse_arg_type : String → ArgType
parse_arg_type type_str =
    if str_eq type_str "string"
    then string
    else if str_eq type_str "number"
    then number
    else if str_eq type_str "boolean"
    then boolean
    else if str_eq type_str "bool"
    then boolean
    else if str_eq type_str "property"
    then property
    else string

-- `arg_type_to_string` of the client.
unfoldable pub client_arg_type_to_string : ArgType → String
client_arg_type_to_string string = "string"
client_arg_type_to_string number = "number"
client_arg_type_to_string boolean = "boolean"
client_arg_type_to_string property = "property"

-- A character in front of the first piece.
unfoldable pub onto_first : Char → List String → List String
onto_first c [] = String.◌∷◌ c "" ∷ []
onto_first c (piece ∷ pieces) = String.◌∷◌ c piece ∷ pieces

-- The pieces between the dots, as `std::getline` gives them; a last empty piece, which it does not
-- give, is dropped below like the others.
unfoldable pub split : String → List String
unfolding onto_first
split String.[] = "" ∷ []
split (String.◌∷◌ c s) = let rest = split s in if code c == 46 then "" ∷ rest else onto_first c rest

abbrev pub not_empty : String → Bool
not_empty part = not (is_empty part)

unfoldable pub path_parts : String → List String
unfolding split filter
path_parts path = filter not_empty (split path)

module _ {J V : Type 0} (lua : Lua J V) where
  -- From a value through nested tables; nil where the path is broken.
  unfoldable pub navigate : V → List String → V
  navigate current [] = current
  navigate current (part ∷ parts) = elim (lua.index current) [
    | none ↦ lua.nil
    | some table ↦ navigate (table part) parts
  ]

  unfoldable pub from_globals : List String → V
  unfolding navigate
  from_globals [] = lua.nil
  from_globals (part ∷ parts) = navigate (lua.global part) parts

  unfoldable pub resolve_function_path : String → V
  unfolding path_parts from_globals
  resolve_function_path path = from_globals (path_parts path)

module _ {J V : Type 0} ⦃ops : JsonOps J⦄ (lua : Lua J V) where
  unfoldable pub resolve_typed : ArgType → J → V
  unfolding resolve_function_path
  resolve_typed string v = lua.from_text (elim (ops.as_text v) [ none ↦ lua.dump v | some s ↦ s ])
  resolve_typed number v = elim (lua.integer_of v) [
    | some n ↦ lua.from_integer n
    | none ↦ if lua.is_number_float v then lua.from_number v else lua.from_integer (pos 0)
  ]
  resolve_typed boolean v = lua.from_boolean (elim (ops.as_boolean v) [ none ↦ false | some b ↦ b ])
  resolve_typed property v = elim (ops.as_text v) [
    | none ↦ lua.nil
    | some path ↦ resolve_function_path lua path
  ]

  unfoldable pub resolve_argument : ActionArg J → V
  unfolding resolve_typed
  resolve_argument arg = resolve_typed arg.type arg.value

  -- The `success` and `error` of a call.
  unfoldable pub outcome_of : CallResult → Bool × String
  outcome_of valid = (true, "")
  outcome_of (invalid e) = (false, append_text "Execution error: " e)
  outcome_of (sol_error e) = (false, append_text "Sol2 error: " e)
  outcome_of (exception e) = (false, append_text "Exception: " e)
  outcome_of unknown_error = (false, "Unknown error during execution")

  unfoldable pub call_function : String → List (ActionArg J) → Bool × String
  unfolding resolve_function_path resolve_argument outcome_of
  call_function action args =
      let func = resolve_function_path lua action in
      if lua.is_function func
      then outcome_of (lua.call func (map resolve_argument args))
      else (false, append_text "Function not found: " action)

-- A payload as `execute_from_payload` reads it, before the arguments.
pub record Request : Type 0 where
  pub item_id : ℤ
  pub item_name : String
  pub action : String

module _ {J V : Type 0} ⦃ops : JsonOps J⦄ where
  -- `lua` is none while no Lua state is cached.
  unfoldable pub execute :
      Option (Lua J V) → String → List (ActionArg J) → ℤ → String → ClientActionResult
  unfolding call_function
  execute none action args item_id item_name = record {
    success = false;
    error = "Lua state not available";
    item_id = item_id;
    item_name = item_name;
  }
  execute (some lua) action args item_id item_name =
      let result = call_function lua action args in
      record { success = result.0; error = result.1; item_id = item_id; item_name = item_name }

module _ {J : Type 0} ⦃ops : JsonOps J⦄ where
  unfoldable pub read_request : J → Option Request
  unfolding value_text value_integer
  read_request payload = do
    item_id ← value_integer payload "item_id" (pos 0)
    item_name ← value_text payload "item_name" ""
    action ← value_text payload "action" ""
    some (record { item_id = item_id; item_name = item_name; action = action })

  unfoldable pub read_arg : J → Option (ActionArg J)
  unfolding value_text value parse_arg_type
  read_arg arg_json = do
    name ← value_text arg_json "name" ""
    type ← value_text arg_json "type" "string"
    v ← value (λ v. some v) arg_json "value" ops.null
    some (record { name = name; type = parse_arg_type type; value = v })

  unfoldable pub read_args : List J → Option (List (ActionArg J))
  unfolding read_arg
  read_args [] = some []
  read_args (arg_json ∷ rest) = do arg ← read_arg arg_json; args ← read_args rest; some (arg ∷ args)

module _ {J V : Type 0} ⦃ops : JsonOps J⦄ (what : String) where
  -- `what` is the text of a JSON exception.
  unfoldable pub execute_request : Option (Lua J V) → J → Request → ClientActionResult
  unfolding execute read_args array_at
  execute_request lua payload request =
      if is_empty request.action
      then record {
        success = false;
        error = "No action specified in payload";
        item_id = request.item_id;
        item_name = request.item_name;
      }
      else elim (read_args (array_at payload "args")) [
        | none ↦ record {
          success = false;
          error = append_text "JSON parse error: " what;
          item_id = request.item_id;
          item_name = request.item_name;
        }
        | some args ↦ execute lua request.action args request.item_id request.item_name
      ]

  -- The result has neither id nor name where they cannot be read.
  unfoldable pub execute_from_payload : Option (Lua J V) → J → ClientActionResult
  unfolding execute_request read_request
  execute_from_payload lua payload = elim (read_request payload) [
    | none ↦ record {
      success = false;
      error = append_text "JSON parse error: " what;
      item_id = pos 0;
      item_name = "";
    }
    | some request ↦ execute_request lua payload request
  ]
