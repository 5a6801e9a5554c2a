-- ===== src/Examples/Capabilities.antt =====
-- The capabilities of two mods: a chest with two instances, a sword.
use apf_ue4ss.Prelude.{true, ◌≡◌, ◌≢◌, ◌↔◌, refl, none, some, [], All}
use apf_ue4ss.Prelude.Int.{pos, ◌+ℤ◌}
use apf_ue4ss.Types.{LocationOwnership, ItemOwnership}
use apf_ue4ss.Types.Enums.{progression}
use apf_ue4ss.Capabilities.{
  add_manifest, empty, item_entry, instances, location_entries, number_locations, assign_ids,
  get_location_id_in, get_location_id, get_location_by_id, get_item_by_id,
}
use apf_ue4ss.Capabilities.Validate.{validate, location_key}
use apf_ue4ss.Capabilities.Validate.Owners.{OneOwner}
use apf_ue4ss.Capabilities.Validate.Rules.{Respected, validate_iff}
use apf_ue4ss.Capabilities.Ids.{location_ids, item_ids}
use apf_ue4ss.Capabilities.Lookups.{Names, get_location_by_id-get_location_id}
use apf_ue4ss.Capabilities.Checksum.{compute_checksum}
use apf_ue4ss.Capabilities.Checksum.Laws.{
  digest, identity, compute_checksum-digest, compute_checksum-add_manifest_comm,
  compute_checksum_cut, order_moves_ids,
}
use apf_ue4ss.Examples.Fixtures.{Doc, ruins, hub, chest, sword, world}

-- The second instance of the chest.
abbrev chest_2 : LocationOwnership
chest_2 = record {
  mod_id = "ruins.mod";
  location_name = "Chest";
  location_id = pos 0;
  instance_no = pos 2;
}

abbrev owned_sword : ItemOwnership Doc
owned_sword = record {
  mod_id = "ruins.mod";
  item_name = "Sword";
  item_id = pos 0;
  type = progression;
  action = "give_sword";
  args = sword.args;
  max_count = pos 1;
}

validate_iff_example : ((validate world).valid ≡ true) ↔ (
    All (λ entry. All (Respected world.manifests) entry.1.incompatible) world.manifests
    × OneOwner location_key (λ loc. loc.mod_id) world.locations
    × OneOwner (λ item. item.item_name) (λ item. item.mod_id) world.items)
validate_iff_example = validate_iff world

location_ids_example :
    (get_location_by_id (assign_ids world (pos 100)) (pos 101)
      ≡ some (record chest_2 { location_id = pos 101 }))
    × (get_item_by_id (assign_ids world (pos 100)) (pos 101) ≡ none)
unfolding add_manifest location_entries instances ◌+ℤ◌
location_ids_example = location_ids world (pos 100) 1 chest_2 refl

item_ids_example :
    (get_item_by_id (assign_ids world (pos 100)) (pos 102)
      ≡ some (record owned_sword { item_id = pos 102 }))
    × (get_location_by_id (assign_ids world (pos 100)) (pos 102) ≡ none)
unfolding add_manifest item_entry location_entries instances ◌+ℤ◌
item_ids_example = item_ids world (pos 100) 0 owned_sword refl

chest_known : get_location_id (assign_ids world (pos 100)) "ruins.mod" "Chest" (pos 2) ≢ pos 0
unfolding get_location_id get_location_id_in assign_ids number_locations add_manifest
    location_entries instances ◌+ℤ◌
chest_known h = cc h

get_location_by_id-get_location_id_example :
    (loc : LocationOwnership) × (get_location_by_id
        (assign_ids world (pos 100))
        (get_location_id (assign_ids world (pos 100)) "ruins.mod" "Chest" (pos 2))
      ≡ some loc)
    × Names "ruins.mod" "Chest" (pos 2) loc
    × (loc.location_id ≡ get_location_id (assign_ids world (pos 100)) "ruins.mod" "Chest" (pos 2))
get_location_by_id-get_location_id_example =
    get_location_by_id-get_location_id world (pos 100) "ruins.mod" "Chest" (pos 2) chest_known

compute_checksum-digest_example :
    compute_checksum world "Ruins" "Player" ≡ digest (identity world "Ruins" "Player")
compute_checksum-digest_example = compute_checksum-digest world "Ruins" "Player"

other_ids : ruins.mod_id ≢ hub.mod_id
other_ids h = cc h

compute_checksum-add_manifest_comm_example :
    compute_checksum (add_manifest (add_manifest empty ruins) hub) "Ruins" "Player"
    ≡ compute_checksum (add_manifest (add_manifest empty hub) ruins) "Ruins" "Player"
compute_checksum-add_manifest_comm_example =
    compute_checksum-add_manifest_comm empty ruins hub "Ruins" "Player" other_ids

compute_checksum_cut_example :
    compute_checksum
      (add_manifest empty (record ruins { mod_id = "ruins.mod1"; version = ".0.0" }))
      "Ruins"
      "Player"
    ≡ compute_checksum (add_manifest empty ruins) "Ruins" "Player"
compute_checksum_cut_example = compute_checksum_cut ruins "ruins.mod1" ".0.0" "Ruins" "Player" refl

order_moves_ids_example :
    (compute_checksum
        (add_manifest (add_manifest empty ruins) (record ruins { mod_id = "b" }))
        "G"
        "S"
      ≡ compute_checksum
          (add_manifest (add_manifest empty (record ruins { mod_id = "b" })) ruins)
          "G"
          "S")
    × (get_location_by_id
          (assign_ids
            (add_manifest (add_manifest empty ruins) (record ruins { mod_id = "b" }))
            (pos 100))
          (pos 100)
        ≢ get_location_by_id
            (assign_ids
              (add_manifest (add_manifest empty (record ruins { mod_id = "b" })) ruins)
              (pos 100))
            (pos 100))
order_moves_ids_example =
    order_moves_ids ruins (record ruins { mod_id = "b" }) chest chest [] [] 1 1 (pos 100) "G" "S"
      (λ h. cc h) refl refl refl refl
