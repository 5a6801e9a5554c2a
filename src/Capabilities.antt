-- ===== src/Capabilities.antt =====
-- APFrameworkCore/src/ap_capabilities.cpp, class `APCapabilities::Impl`. Each method runs whole
-- under the object's mutex, so it is a function of the state. Log lines are left out.
pub mod Validate
pub mod Checksum
pub mod Ids
pub mod Lookups
use Prim.Native.String.{◌++◌ as append_text}
use apf_ue4ss.Prelude.{
  ℕ, zero, suc, ◌+◌, String, Bool, true, false, ◌&&◌, Option, none, some, List, [], ◌∷◌, ◌++◌, map,
  length, fold, filter, find, if◌then◌else◌,
}
use apf_ue4ss.Prelude.Int.{ℤ, pos, negsuc, pos_part, ◌+ℤ◌, eqb_ℤ, ltb_ℤ}
use apf_ue4ss.Prelude.Text.{str_eq}
use apf_ue4ss.Prelude.Dict.{OrdMap, insert}
use apf_ue4ss.Types.{Manifest, LocationDef, ItemDef, LocationOwnership, ItemOwnership}

pub record Capabilities (J : Type 0) : Type 0 where
  pub manifests : OrdMap (Manifest J)
  pub locations : List LocationOwnership
  pub items : List (ItemOwnership J)
  pub base_id : ℤ

-- The loop over the instances `i ≤ loc.amount` of one location; the argument counts those left.
unfoldable pub instances : String → String → ℤ → ℕ → List LocationOwnership
instances mod_id name i zero = []
instances mod_id name i (suc left) =
    record { mod_id = mod_id; location_name = name; location_id = pos 0; instance_no = i }
    ∷ instances mod_id name (i +ℤ pos 1) left

unfoldable pub location_entries : String → List LocationDef → List LocationOwnership
unfolding instances
location_entries mod_id [] = []
location_entries mod_id (loc ∷ locs) =
    instances mod_id loc.name (pos 1) (pos_part loc.amount) ++ location_entries mod_id locs

-- `for (auto& loc : locations_) loc.location_id = current_id++;`
unfoldable pub number_locations : ℤ → List LocationOwnership → List LocationOwnership
number_locations current [] = []
number_locations current (loc ∷ locs) =
    record loc { location_id = current } ∷ number_locations (current +ℤ pos 1) locs

unfoldable pub get_location_id_in : List LocationOwnership → String → String → ℤ → ℤ
get_location_id_in [] mod_id name instance_no = pos 0
get_location_id_in (loc ∷ locs) mod_id name instance_no =
    if str_eq loc.mod_id mod_id
      && (str_eq loc.location_name name && eqb_ℤ loc.instance_no instance_no)
    then loc.location_id
    else get_location_id_in locs mod_id name instance_no

module _ {J : Type 0} where
  unfoldable pub item_entry : String → ItemDef J → ItemOwnership J
  item_entry mod_id item = record {
    mod_id = mod_id;
    item_name = item.name;
    item_id = pos 0;
    type = item.type;
    action = item.action;
    args = item.args;
    max_count = if ltb_ℤ item.amount (pos 0) then negsuc 0 else item.amount;
  }

  unfoldable pub add_manifest : Capabilities J → Manifest J → Capabilities J
  unfolding item_entry location_entries
  add_manifest s manifest = record s {
    manifests = insert manifest.mod_id manifest s.manifests;
    locations = s.locations ++ location_entries manifest.mod_id manifest.locations;
    items = s.items ++ map (item_entry manifest.mod_id) manifest.items;
  }

  -- The object as it is constructed, and as `clear` leaves it.
  abbrev pub empty : Capabilities J
  empty = record { manifests = []; locations = []; items = []; base_id = pos 0 }

  unfoldable pub clear : Capabilities J → Capabilities J
  clear s = record s { manifests = []; locations = []; items = []; base_id = pos 0 }

  -- `for (auto& item : items_) item.item_id = current_id++;`
  unfoldable pub number_items : ℤ → List (ItemOwnership J) → List (ItemOwnership J)
  number_items current [] = []
  number_items current (item ∷ items) =
      record item { item_id = current } ∷ number_items (current +ℤ pos 1) items

  unfoldable pub assign_ids : Capabilities J → ℤ → Capabilities J
  unfolding number_locations number_items
  assign_ids s base_id = record s {
    base_id = base_id;
    locations = number_locations base_id s.locations;
    items = number_items (base_id +ℤ pos (length s.locations)) s.items;
  }

  unfoldable pub get_location_id : Capabilities J → String → String → ℤ → ℤ
  get_location_id s mod_id name instance_no = get_location_id_in s.locations mod_id name instance_no

  -- `return 0` past the last item.
  unfoldable pub get_item_id : Capabilities J → String → String → ℤ
  unfolding find
  get_item_id s mod_id name =
      elim (find (λ item. str_eq item.mod_id mod_id && str_eq item.item_name name) s.items) [
        | none ↦ pos 0
        | some item ↦ item.item_id
      ]

  unfoldable pub get_location_by_id : Capabilities J → ℤ → Option LocationOwnership
  unfolding find
  get_location_by_id s id = find (λ loc. eqb_ℤ loc.location_id id) s.locations

  unfoldable pub get_item_by_id : Capabilities J → ℤ → Option (ItemOwnership J)
  unfolding find
  get_item_by_id s id = find (λ item. eqb_ℤ item.item_id id) s.items

  unfoldable pub get_locations_for_mod : Capabilities J → String → List LocationOwnership
  unfolding filter
  get_locations_for_mod s mod_id = filter (λ loc. str_eq loc.mod_id mod_id) s.locations

  unfoldable pub get_items_for_mod : Capabilities J → String → List (ItemOwnership J)
  unfolding filter
  get_items_for_mod s mod_id = filter (λ item. str_eq item.mod_id mod_id) s.items

  unfoldable pub get_location_count : Capabilities J → ℕ
  get_location_count s = length s.locations

  unfoldable pub get_item_count : Capabilities J → ℕ
  get_item_count s = length s.items
