-- ===== src/Capabilities/Checksum.antt =====
-- `compute_checksum`, and the file that `generate_capabilities_config` describes.
pub mod Laws
use Prim.Native.Nat.{Ordering}
use Prim.Native.String.{compare}
use apf_ue4ss.Prelude.{String, Option, none, some, List, [], ◌∷◌, map, fold}
use apf_ue4ss.Prelude.Text.{to_string}
use apf_ue4ss.Prelude.Dict.{find_key}
use apf_ue4ss.Types.{
  Manifest, LocationDef, ItemDef, LocationOwnership, ItemOwnership, ModInfo, CapabilitiesConfig,
  CapabilitiesConfigLocation, CapabilitiesConfigItem,
}
use apf_ue4ss.Types.Enums.{item_type_to_string, regular}
use apf_ue4ss.Prelude.{true, false}
use apf_ue4ss.Sha1.{Sha1, reset, update_text}
use apf_ue4ss.Sha1.Hex.{final_hex}
use apf_ue4ss.Capabilities.{Capabilities}

insert_sorted : String → List String → List String
insert_sorted s [] = s ∷ []
insert_sorted s (t ∷ ts) =
    let later = t ∷ insert_sorted s ts in
    elim (compare s t) [ Ordering.gt ↦ later | _ ↦ s ∷ t ∷ ts ]

-- `std::sort` on texts.
unfoldable pub sort : List String → List String
unfolding insert_sorted
sort [] = []
sort (s ∷ ss) = insert_sorted s (sort ss)

unfoldable pub hash_location : Sha1 → LocationDef → Sha1
hash_location sha loc = update_text (update_text sha loc.name) (to_string loc.amount)

unfoldable config_location : LocationOwnership → CapabilitiesConfigLocation
config_location loc = record {
  id = loc.location_id;
  name = loc.location_name;
  mod_id = loc.mod_id;
  instance_no = loc.instance_no;
}

module _ {J : Type 0} where
  unfoldable pub hash_item : Sha1 → ItemDef J → Sha1
  hash_item sha item =
      update_text (update_text (update_text sha item.name) (item_type_to_string item.type))
        (to_string item.amount)

  -- The body of the loop over the sorted ids; `manifests_.at` finds each, as the ids are its keys.
  unfoldable pub hash_manifest : Capabilities J → Sha1 → String → Sha1
  hash_manifest s sha mod_id = elim (find_key mod_id s.manifests) [
    | none ↦ sha
    | some manifest ↦
        fold hash_item
          (fold hash_location (update_text (update_text sha mod_id) manifest.version)
            manifest.locations)
          manifest.items
  ]

  unfoldable pub compute_checksum : Capabilities J → String → String → String
  compute_checksum s game_name slot_name = final_hex (
      fold (hash_manifest s) (update_text (update_text reset game_name) slot_name)
        (sort (map (λ entry. entry.0) s.manifests)))

  unfoldable config_item : ItemOwnership J → CapabilitiesConfigItem
  config_item item = record {
    id = item.item_id;
    name = item.item_name;
    type = item_type_to_string item.type;
    mod_id = item.mod_id;
    count = item.max_count;
  }

  unfoldable config_mod : String × Manifest J → ModInfo
  config_mod (mod_id, manifest) = record {
    mod_id = mod_id;
    name = manifest.name;
    version = manifest.version;
    type = regular;
    is_registered = false;
    has_conflict = false;
  }

  -- `generated_at` is the time of the call in text.
  unfoldable pub generate_capabilities_config :
      Capabilities J → String → String → String → CapabilitiesConfig
  unfolding config_location config_item config_mod
  generate_capabilities_config s generated_at slot_name game_name = record {
    version = "1.0.0";
    game = game_name;
    slot_name = slot_name;
    checksum = compute_checksum s game_name slot_name;
    id_base = s.base_id;
    generated_at = generated_at;
    mods = map config_mod s.manifests;
    locations = map config_location s.locations;
    items = map config_item s.items;
  }
