-- ===== src/Examples/Registry.antt =====
-- The registry at concrete inputs.
use apf_ue4ss.Prelude.{◌+◌, String, true, ◌≡◌, ◌↔◌, ◌⊎◌, none, some, [], ◌∷◌}
use apf_ue4ss.Prelude.Dict.{string_eq}
use apf_ue4ss.Registry.{DirEntry, empty, count, get_manifest, discover_manifests}
use apf_ue4ss.Registry.Pattern.{is_priority_client, NamesPriority, is_priority_client_iff}
use apf_ue4ss.Registry.Invariant.{Inv, adds, marks, resets, run, run-Inv, discover_manifests_lem}
use apf_ue4ss.Examples.Fixtures.{Doc, ruins, hub, mods}

abbrev folder_entry : DirEntry Doc
folder_entry = record { is_directory = true; has_manifest = true; manifest = some hub }

run-Inv_example : Inv (run empty (adds ruins ∷ marks "ruins.mod" ∷ resets ∷ adds hub ∷ []))
run-Inv_example = run-Inv (adds ruins ∷ marks "ruins.mod" ∷ resets ∷ adds hub ∷ [])

discover_manifests_lem_example :
    (count (discover_manifests mods (some (folder_entry ∷ []))).0
      ≡ count mods + (discover_manifests mods (some (folder_entry ∷ []))).1)
    × ((id : String)
        → (get_manifest mods id ≡ none)
          ⊎ (get_manifest (discover_manifests mods (some (folder_entry ∷ []))).0 id
              ≡ get_manifest mods id))
    × ((discover_manifests mods (some (folder_entry ∷ []))).0.registered ≡ mods.registered)
discover_manifests_lem_example = discover_manifests_lem mods (some (folder_entry ∷ []))

is_priority_client_iff_example :
    (is_priority_client "archipelago.game.hub" ≡ true) ↔ NamesPriority "archipelago.game.hub"
is_priority_client_iff_example = is_priority_client_iff "archipelago.game.hub"
