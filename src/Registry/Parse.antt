-- ===== src/Registry/Parse.antt =====
-- APFrameworkCore/src/ap_mod_registry.cpp, `parse_manifest` and `parse_manifest_file`. An exception
-- of nlohmann::json is caught around the whole function, so it is none like a manifest without id.
pub mod Laws
use apf_ue4ss.Prelude.{
  String, Bool, true, false, not, Option, none, some, List, [], ◌∷◌, filter, if◌then◌else◌, ◌>>=◌,
}
use apf_ue4ss.Prelude.Int.{ℤ, pos}
use apf_ue4ss.Prelude.Text.{is_empty}
use apf_ue4ss.Types.{ActionArg, LocationDef, ItemDef, IncompatibilityRule, Manifest}
use apf_ue4ss.Types.Enums.{item_type_from_string, arg_type_from_string}
use apf_ue4ss.Types.Json.{JsonOps, value_text, value_integer, value_boolean, array_at}

-- A loop over an array, each of whose rounds may throw.
unfoldable pub each {ℓ κ} : {A : Type ℓ} {B : Type κ} → (A → Option B) → List A → Option (List B)
each read [] = some []
each read (x ∷ xs) = do y ← read x; ys ← each read xs; some (y ∷ ys)

-- `if (!def.name.empty()) { push_back(def); }`
abbrev pub named_location : LocationDef → Bool
named_location def = not (is_empty def.name)

abbrev pub named_item : {J : Type 0} → ItemDef J → Bool
named_item def = not (is_empty def.name)

module _ {J : Type 0} ⦃ops : JsonOps J⦄ where
  unfoldable pub parse_rule : J → Option IncompatibilityRule
  unfolding value_text array_at each
  parse_rule rule = do
    id ← value_text rule "id" ""
    versions ← each ops.as_text (array_at rule "versions")
    some (record { id = id; versions = versions })

  unfoldable pub parse_location : J → Option LocationDef
  unfolding value_text value_integer value_boolean
  parse_location loc = do
    name ← value_text loc "name" ""
    amount ← value_integer loc "amount" (pos 1)
    unique ← value_boolean loc "unique" false
    some (record { name = name; amount = amount; unique = unique })

  -- A missing value is the null of a default `nlohmann::json`.
  unfoldable pub parse_arg : J → Option (ActionArg J)
  unfolding value_text arg_type_from_string
  parse_arg arg = do
    name ← value_text arg "name" ""
    type ← value_text arg "type" "string"
    some (record {
      name = name;
      type = arg_type_from_string type;
      value = elim (ops.member arg "value") [ none ↦ ops.null | some v ↦ v ];
    })

  unfoldable pub parse_item : J → Option (ItemDef J)
  unfolding value_text value_integer array_at each parse_arg item_type_from_string
  parse_item item = do
    name ← value_text item "name" ""
    type ← value_text item "type" "filler"
    amount ← value_integer item "amount" (pos 1)
    action ← value_text item "action" ""
    args ← each parse_arg (array_at item "args")
    some (record {
      name = name;
      type = item_type_from_string type;
      amount = amount;
      action = action;
      args = args;
    })

  -- The array of a key of `j["capabilities"]`, if that is an object.
  unfoldable pub capability_array : J → String → List J
  unfolding array_at
  capability_array j key = elim (ops.member j "capabilities") [
    | none ↦ []
    | some caps ↦ if ops.is_object caps then array_at caps key else []
  ]

  -- `if (!j.contains("mod_id") || !j["mod_id"].is_string())`
  unfoldable pub required_id : J → Option String
  required_id j = elim (ops.member j "mod_id") [ none ↦ none | some v ↦ ops.as_text v ]

  unfoldable pub read_manifest : J → Option (Manifest J)
  unfolding value_text value_boolean array_at each parse_rule parse_location parse_item
      capability_array required_id filter
  read_manifest j = do
    mod_id ← required_id j
    name ← value_text j "name" mod_id
    version ← value_text j "version" "1.0.0"
    enabled ← value_boolean j "enabled" true
    description ← value_text j "description" ""
    incompatible ← each parse_rule (array_at j "incompatible")
    locations ← each parse_location (capability_array j "locations")
    items ← each parse_item (capability_array j "items")
    some (record {
      mod_id = mod_id;
      name = name;
      version = version;
      enabled = enabled;
      description = description;
      incompatible = incompatible;
      locations = filter named_location locations;
      items = filter named_item items;
    })

  -- `parse` is nlohmann::json::parse, none where it throws.
  unfoldable pub parse_manifest : (String → Option J) → String → Option (Manifest J)
  unfolding read_manifest
  parse_manifest parse json_content = do j ← parse json_content; read_manifest j

  -- `content` is what `read_file` gives: empty if the file is missing.
  unfoldable pub parse_manifest_file : (String → Option J) → String → Option (Manifest J)
  unfolding parse_manifest
  parse_manifest_file parse content =
      if is_empty content then none else parse_manifest parse content
