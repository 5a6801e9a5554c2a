-- ===== src/Registry.antt =====
-- APFrameworkCore/src/ap_mod_registry.cpp, class `APModRegistry::Impl`. Each method runs whole under
-- the object's mutex, so it is a function of the state. Log lines are left out.
pub mod Pattern
pub mod Invariant
pub mod Waiting
pub mod Parse
use apf_ue4ss.Prelude.{
  ℕ, zero, suc, ◌+◌, String, Bool, true, false, not, ◌&&◌, Option, none, some, List, [], ◌∷◌,
  length, map, filter, all, if◌then◌else◌,
}
use apf_ue4ss.Prelude.Dict.{string_eq, lookup, put, contains, add}
use apf_ue4ss.Types.{Manifest, ModInfo}
use apf_ue4ss.Types.Enums.{ModType, regular, priority}
use apf_ue4ss.Registry.Pattern.{is_priority_client, get_mod_type}

-- `manifests_`, an unordered_map, and `registered_`, an unordered_set.
pub record Registry (J : Type 0) : Type 0 where
  pub manifests : List (String × Manifest J)
  pub registered : List String

-- What the file system shows of one entry of the mods folder: `manifest` is what
-- `parse_manifest_file` returns for its manifest.json.
pub record DirEntry (J : Type 0) : Type 0 where
  pub is_directory : Bool
  pub has_manifest : Bool
  pub manifest : Option (Manifest J)

abbrev pub is_some {ℓ} : {A : Type ℓ} → Option A → Bool
is_some none = false
is_some (some a) = true

module _ {J : Type 0} where
  abbrev pub empty : Registry J
  empty = record { manifests = []; registered = [] }

  unfoldable pub add_manifest : Registry J → Manifest J → Registry J × Bool
  add_manifest r manifest =
      if is_some (lookup manifest.mod_id r.manifests)
      then (r, false)
      else (record r { manifests = put manifest.mod_id manifest r.manifests }, true)

  -- The body of the loop of `discover_manifests`, with its `continue`s.
  unfoldable pub discover_entry : Registry J × ℕ → DirEntry J → Registry J × ℕ
  discover_entry (r, count) entry =
      if not entry.is_directory
      then (r, count)
      else if not entry.has_manifest
      then (r, count)
      else elim entry.manifest [
        | none ↦ (r, count)
        | some m ↦
            if is_some (lookup m.mod_id r.manifests)
            then (r, count)
            else (record r { manifests = put m.mod_id m r.manifests }, count + 1)
      ]

  discover_entries : Registry J × ℕ → List (DirEntry J) → Registry J × ℕ
  discover_entries st [] = st
  discover_entries st (entry ∷ entries) = discover_entries (discover_entry st entry) entries

  -- `none` stands for a folder that is missing.
  unfoldable pub discover_manifests : Registry J → Option (List (DirEntry J)) → Registry J × ℕ
  unfolding discover_entries
  discover_manifests r none = (r, 0)
  discover_manifests r (some entries) = discover_entries (r, 0) entries

  unfoldable pub clear : Registry J → Registry J
  clear r = record { manifests = []; registered = [] }

  unfoldable pub mark_registered : Registry J → String → Registry J × Bool
  mark_registered r mod_id =
      if is_some (lookup mod_id r.manifests)
      then (record r { registered = add mod_id r.registered }, true)
      else (r, false)

  unfoldable pub is_registered : Registry J → String → Bool
  is_registered r mod_id = contains mod_id r.registered

  -- The test `manifest.enabled && registered_.find(mod_id) == registered_.end()`.
  abbrev pub is_pending : Registry J → String × Manifest J → Bool
  is_pending r (mod_id, manifest) = manifest.enabled && not (contains mod_id r.registered)

  unfoldable pub all_registered : Registry J → Bool
  all_registered r = all (λ entry. not (is_pending r entry)) r.manifests

  unfoldable pub get_pending_registrations : Registry J → List String
  get_pending_registrations r = map (λ entry. entry.0) (filter (is_pending r) r.manifests)

  unfoldable pub reset_registrations : Registry J → Registry J
  reset_registrations r = record r { registered = [] }

  unfoldable pub get_discovered_manifests : Registry J → List (Manifest J)
  get_discovered_manifests r = map (λ entry. entry.1) r.manifests

  unfoldable pub get_enabled_manifests : Registry J → List (Manifest J)
  get_enabled_manifests r = filter (λ m. m.enabled) (map (λ entry. entry.1) r.manifests)

  unfoldable pub get_manifest : Registry J → String → Option (Manifest J)
  get_manifest r mod_id = lookup mod_id r.manifests

  unfoldable pub get_priority_clients : Registry J → List String
  get_priority_clients r =
      map (λ entry. entry.0)
        (filter (λ entry. entry.1.enabled && is_priority_client entry.0) r.manifests)

  unfoldable pub get_regular_mods : Registry J → List String
  get_regular_mods r =
      map (λ entry. entry.0)
        (filter (λ entry. entry.1.enabled && not (is_priority_client entry.0)) r.manifests)

  unfoldable pub get_mod_infos : Registry J → List ModInfo
  get_mod_infos r =
      map
        (λ entry. record {
          mod_id = entry.0;
          name = entry.1.name;
          version = entry.1.version;
          type = get_mod_type entry.0;
          is_registered = contains entry.0 r.registered;
          has_conflict = false;
        })
        r.manifests

  unfoldable pub count : Registry J → ℕ
  count r = length r.manifests
