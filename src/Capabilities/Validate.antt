-- ===== src/Capabilities/Validate.antt =====
-- `validate`, `get_conflicts` and `has_conflicts` of ap_capabilities.cpp.
pub mod Owners
pub mod Rules
use Prim.Native.String.{◌++◌ as append_text}
use apf_ue4ss.Prelude.{
  String, Bool, true, false, not, ◌||◌, Option, none, some, List, [], ◌∷◌, ◌++◌, any, fold,
  if◌then◌else◌,
}
use apf_ue4ss.Prelude.Text.{str_eq, to_string}
use apf_ue4ss.Prelude.Dict.{OrdMap, insert, find_key}
use apf_ue4ss.Types.{
  Manifest, IncompatibilityRule, LocationOwnership, ItemOwnership, Conflict, ValidationResult,
}
use apf_ue4ss.Capabilities.{Capabilities}

-- `result.conflicts.push_back(conflict); result.valid = false;`
unfoldable pub report : ValidationResult → Conflict → ValidationResult
report r c = record r { conflicts = r.conflicts ++ c ∷ []; valid = false }

-- The loop over the versions of a rule.
unfoldable pub version_matches : List String → String → Bool
version_matches versions version = elim versions [
  | [] ↦ true
  | v ∷ vs ↦ any (λ ver. str_eq ver version || str_eq ver "*") (v ∷ vs)
]

module _ {J : Type 0} where
  unfoldable pub check_rule :
      OrdMap (Manifest J) → String → ValidationResult → IncompatibilityRule → ValidationResult
  check_rule manifests mod_id result rule = elim (find_key rule.id manifests) [
    | none ↦ result
    | some other ↦
        if version_matches rule.versions other.version
        then report result (record {
          capability_name = "mod_incompatibility";
          mod_id_1 = mod_id;
          mod_id_2 = rule.id;
          description = append_text mod_id (append_text " is incompatible with " rule.id);
        })
        else result
  ]

  -- The loop over the manifests, with `all` the whole map.
  unfoldable pub check_rules :
      OrdMap (Manifest J) → OrdMap (Manifest J) → ValidationResult → ValidationResult
  check_rules manifests [] result = result
  check_rules manifests ((mod_id, manifest) ∷ rest) result =
      check_rules manifests rest (fold (check_rule manifests mod_id) result manifest.incompatible)

-- One turn of the loops over `locations_` and over `items_`: who owns `key`?
unfoldable pub claim :
    String
    → String
    → String
    → String
    → ValidationResult × OrdMap String
    → ValidationResult × OrdMap String
claim capability key mod_id description (result, owners) = elim (find_key key owners) [
  | none ↦ (result, insert key mod_id owners)
  | some owner ↦ if str_eq owner mod_id then (result, insert key mod_id owners) else (
    report result (record {
      capability_name = capability;
      mod_id_1 = owner;
      mod_id_2 = mod_id;
      description = description;
    }),
    owners,
  )
]

unfoldable pub location_key : LocationOwnership → String
location_key loc = append_text loc.location_name (append_text "#" (to_string loc.instance_no))

unfoldable pub check_locations : ValidationResult → List LocationOwnership → ValidationResult
check_locations result locations =
    (fold
      (λ st loc.
        claim "location_conflict" (location_key loc) loc.mod_id
          (append_text "Duplicate location: " loc.location_name) st)
      (result, []) locations).0

module _ {J : Type 0} where
  unfoldable pub check_items : ValidationResult → List (ItemOwnership J) → ValidationResult
  check_items result items =
      (fold
        (λ st item.
          claim "item_conflict" item.item_name item.mod_id
            (append_text "Duplicate item: " item.item_name) st)
        (result, []) items).0

  unfoldable pub validate : Capabilities J → ValidationResult
  validate s =
      let start : ValidationResult = record { valid = true; conflicts = []; warnings = [] } in
      check_items (check_locations (check_rules s.manifests s.manifests start) s.locations) s.items

  unfoldable pub get_conflicts : Capabilities J → List Conflict
  get_conflicts s = (validate s).conflicts

  unfoldable pub has_conflicts : Capabilities J → Bool
  has_conflicts s = not (validate s).valid
