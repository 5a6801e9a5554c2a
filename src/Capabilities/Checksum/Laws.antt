-- ===== src/Capabilities/Checksum/Laws.antt =====
-- What the checksum depends on: the text that is hashed, and not the order of registration.
use Prim.Native.String.{◌++◌ as append_text}
use mathlib.Core.List.{append_assoc, append-nil}
use apf_ue4ss.Prelude.{
  ℕ, suc, String, ◌≡◌, ◌≢◌, sym, ◌∙◌, ap, Option, none, some, List, [], ◌∷◌, ◌++◌, map, fold,
  Option-cases, inl, inr, find,
}
use apf_ue4ss.Prelude.Int.{ℤ, pos, eqb_ℤ_refl}
use apf_ue4ss.Prelude.Text.{bytes, bytes-append, to_string, str_eq_refl}
use apf_ue4ss.Prelude.Dict.{insert_comm, find_key, insert}
use apf_ue4ss.Types.{Manifest, LocationDef, ItemDef, LocationOwnership}
use apf_ue4ss.Types.Enums.{item_type_to_string}
use apf_ue4ss.Sha1.{Sha1, reset, update, update_text}
use apf_ue4ss.Sha1.Stream.{update-append}
use apf_ue4ss.Sha1.Hex.{final_hex}
use apf_ue4ss.Capabilities.{
  Capabilities, add_manifest, assign_ids, empty, get_location_by_id, instances, location_entries,
  number_locations,
}
use apf_ue4ss.Capabilities.Checksum.{
  sort, hash_location, hash_item, hash_manifest, compute_checksum,
}

-- The SHA-1 digest of a message, in text.
abbrev pub digest : List ℕ → String
digest message = final_hex (update reset message)

abbrev pub flat {ℓ} : {A : Type ℓ} → (A → List ℕ) → List A → List ℕ
flat f [] = []
flat f (x ∷ xs) = f x ++ flat f xs

abbrev pub location_bytes : LocationDef → List ℕ
location_bytes loc = bytes loc.name ++ bytes (to_string loc.amount)

abbrev pub item_bytes : {J : Type 0} → ItemDef J → List ℕ
item_bytes item =
    bytes item.name ++ (bytes (item_type_to_string item.type) ++ bytes (to_string item.amount))

-- What one mod adds to the message: nothing stands between its parts.
abbrev pub manifest_bytes : {J : Type 0} → String → Manifest J → List ℕ
manifest_bytes mod_id m =
    bytes mod_id
    ++ (bytes m.version ++ (flat location_bytes m.locations ++ flat item_bytes m.items))

abbrev pub bytes_of : {J : Type 0} → String → Option (Manifest J) → List ℕ
bytes_of mod_id none = []
bytes_of mod_id (some m) = manifest_bytes mod_id m

abbrev pub mod_bytes : {J : Type 0} → Capabilities J → String → List ℕ
mod_bytes s mod_id = bytes_of mod_id (find_key mod_id s.manifests)

-- The whole message of the checksum.
abbrev pub identity : {J : Type 0} → Capabilities J → String → String → List ℕ
identity s game_name slot_name =
    bytes game_name
    ++ (bytes slot_name ++ flat (mod_bytes s) (sort (map (λ entry. entry.0) s.manifests)))

-- Hashing `x` after the bytes `acc` is hashing `acc ++ f x`.
abbrev Hashes {ℓ} : {A : Type ℓ} → (Sha1 → A → Sha1) → (A → List ℕ) → Type ℓ
Hashes h f = (acc : List ℕ) (x : _) → h (update reset acc) x ≡ update reset (acc ++ f x)

fold-Hashes {ℓ} :
    {A : Type ℓ} (h : Sha1 → A → Sha1) (f : A → List ℕ)
    → Hashes h f
    → (acc : List ℕ) (xs : List A) → fold h (update reset acc) xs ≡ update reset (acc ++ flat f xs)
fold-Hashes h f step acc [] = ap (update reset) (sym (append-nil acc))
fold-Hashes h f step acc (x ∷ xs) =
    ap (λ sha. fold h sha xs) (step acc x)
    ∙ fold-Hashes h f step (acc ++ f x) xs
    ∙ ap (update reset) (append_assoc acc (f x) (flat f xs))

text-Hashes : Hashes update_text bytes
unfolding update_text
text-Hashes acc text = update-append reset acc (bytes text)

names_hash :
    (game_name slot_name : String)
    → update_text (update_text reset game_name) slot_name
      ≡ update reset (bytes game_name ++ bytes slot_name)
unfolding update_text
names_hash game_name slot_name = update-append reset (bytes game_name) (bytes slot_name)

location-Hashes : Hashes hash_location location_bytes
unfolding hash_location
location-Hashes acc loc =
    ap (λ sha. update_text sha (to_string loc.amount)) (text-Hashes acc loc.name)
    ∙ text-Hashes (acc ++ bytes loc.name) (to_string loc.amount)
    ∙ ap (update reset) (append_assoc acc (bytes loc.name) (bytes (to_string loc.amount)))

owner_eq :
    {a b : LocationOwnership}
    → ◌≡◌ {A = Option LocationOwnership} (some a) (some b)
    → a.mod_id ≡ b.mod_id
owner_eq {a} {b} h = let e : a ≡ b = cc h in ap (λ (l : LocationOwnership). l.mod_id) e

module _ {J : Type 0} where
  item-Hashes : Hashes (hash_item {J = J}) item_bytes
  unfolding hash_item
  item-Hashes acc item = simp (text-Hashes, append_assoc)

  manifest_hashes :
      (acc : List ℕ) (mod_id : String) (m : Manifest J)
      → fold hash_item
          (fold hash_location
            (update_text (update_text (update reset acc) mod_id) m.version)
            m.locations)
          m.items
        ≡ update reset (acc ++ manifest_bytes mod_id m)
  manifest_hashes acc mod_id m = simp (
    text-Hashes,
    fold-Hashes hash_location location_bytes location-Hashes,
    fold-Hashes hash_item item_bytes item-Hashes,
    append_assoc,
  )

  mod-Hashes : (s : Capabilities J) → Hashes (hash_manifest s) (mod_bytes s)
  unfolding hash_manifest
  mod-Hashes s acc mod_id = elim (Option-cases (find_key mod_id s.manifests)) [
    | inl e ↦ rw (e, hash_manifest) (ap (update reset) (sym (append-nil acc)))
    | inr (m, e) ↦ rw (e, hash_manifest) (manifest_hashes acc mod_id m)
  ]

  -- The checksum is the SHA-1 digest of the game name, the slot name and, for each mod in the order
  -- of the ids, the id, the version, the names and amounts of the locations and the names, types and
  -- amounts of the items, one text after the other.
  pub compute_checksum-digest :
      (s : Capabilities J) (game_name slot_name : String)
      → compute_checksum s game_name slot_name ≡ digest (identity s game_name slot_name)
  unfolding compute_checksum
  compute_checksum-digest s game_name slot_name =
      let ids = sort (map (λ entry. entry.0) s.manifests) in
      ap (λ sha. final_hex (fold (hash_manifest s) sha ids)) (names_hash game_name slot_name)
      ∙ ap final_hex (
          fold-Hashes (hash_manifest s) (mod_bytes s) (mod-Hashes s)
            (bytes game_name ++ bytes slot_name) ids)
      ∙ ap digest (append_assoc (bytes game_name) (bytes slot_name) (flat (mod_bytes s) ids))

  -- Two mods with different ids may be added in either order: the checksum is the same.
  pub compute_checksum-add_manifest_comm :
      (s : Capabilities J) (m n : Manifest J) (game_name slot_name : String)
      → m.mod_id ≢ n.mod_id
      → compute_checksum (add_manifest (add_manifest s m) n) game_name slot_name
        ≡ compute_checksum (add_manifest (add_manifest s n) m) game_name slot_name
  unfolding compute_checksum hash_manifest add_manifest
  compute_checksum-add_manifest_comm s m n game_name slot_name h =
      rw (insert_comm n.mod_id m.mod_id n m s.manifests (λ e. h (sym e)))

  single_identity :
      (m : Manifest J) (game_name slot_name : String)
      → identity (add_manifest empty m) game_name slot_name
        ≡ bytes game_name ++ (bytes slot_name ++ (manifest_bytes m.mod_id m ++ []))
  unfolding add_manifest insert sort find_key
  single_identity m game_name slot_name =
      let found : find_key m.mod_id ((m.mod_id, m) ∷ []) ≡ some m = rw (str_eq_refl m.mod_id) in
      ap
        (λ (o : Option (Manifest J)).
          bytes game_name ++ (bytes slot_name ++ (bytes_of m.mod_id o ++ [])))
        found

  manifest_bytes_cut :
      (m : Manifest J) (mod_id version : String)
      → append_text mod_id version ≡ append_text m.mod_id m.version
      → manifest_bytes mod_id (record m { mod_id = mod_id; version = version })
        ≡ manifest_bytes m.mod_id m
  manifest_bytes_cut m mod_id version h =
      let rest = flat location_bytes m.locations ++ flat item_bytes m.items in
      let joined : bytes mod_id ++ bytes version ≡ bytes m.mod_id ++ bytes m.version =
        sym (bytes-append mod_id version) ∙ ap bytes h ∙ bytes-append m.mod_id m.version in
      sym (append_assoc (bytes mod_id) (bytes version) rest)
      ∙ ap (λ (l : List ℕ). l ++ rest) joined
      ∙ append_assoc (bytes m.mod_id) (bytes m.version) rest

  -- A mod on its own, with its id and its version cut at another place: since nothing stands between
  -- the texts that are hashed, the checksum does not tell the two mods apart.
  pub compute_checksum_cut :
      (m : Manifest J) (mod_id version game_name slot_name : String)
      → append_text mod_id version ≡ append_text m.mod_id m.version
      → compute_checksum
          (add_manifest empty (record m { mod_id = mod_id; version = version }))
          game_name
          slot_name
        ≡ compute_checksum (add_manifest empty m) game_name slot_name
  compute_checksum_cut m mod_id version game_name slot_name h =
      let n : Manifest J = record m { mod_id = mod_id; version = version } in
      compute_checksum-digest (add_manifest empty n) game_name slot_name
      ∙ ap digest (single_identity n game_name slot_name)
      ∙ ap (λ (l : List ℕ). digest (bytes game_name ++ (bytes slot_name ++ (l ++ []))))
          (manifest_bytes_cut m mod_id version h)
      ∙ ap digest (sym (single_identity m game_name slot_name))
      ∙ sym (compute_checksum-digest (add_manifest empty m) game_name slot_name)

  -- The first instance of the first location of the mod added first has the base as its id.
  first_id :
      (m n : Manifest J) (loc : LocationDef) (locs : List LocationDef) (k : ℕ) (base : ℤ)
      → m.locations ≡ loc ∷ locs
      → loc.amount ≡ pos (suc k)
      → get_location_by_id (assign_ids (add_manifest (add_manifest empty m) n) base) base
        ≡ some (record {
          mod_id = m.mod_id;
          location_name = loc.name;
          location_id = base;
          instance_no = pos 1;
        })
  unfolding get_location_by_id assign_ids add_manifest find instances location_entries
      number_locations
  first_id m n loc locs k base h e = rw (h, e, eqb_ℤ_refl base)

  -- Two mods with different ids whose first locations have an instance each: added in either order
  -- they have the same checksum, and the base id belongs to another mod. (The registry hands the manifests over in the
  -- order of an unordered_map.)
  pub order_moves_ids :
      (m n : Manifest J) (p q : LocationDef) (ps qs : List LocationDef) (i j : ℕ) (base : ℤ)
      (game_name slot_name : String)
      → m.mod_id ≢ n.mod_id
      → m.locations ≡ p ∷ ps
      → n.locations ≡ q ∷ qs
      → p.amount ≡ pos (suc i)
      → q.amount ≡ pos (suc j)
      → let mn = add_manifest (add_manifest empty m) n in
        let nm = add_manifest (add_manifest empty n) m in
        (compute_checksum mn game_name slot_name ≡ compute_checksum nm game_name slot_name)
        × (get_location_by_id (assign_ids mn base) base
            ≢ get_location_by_id (assign_ids nm base) base)
  order_moves_ids m n p q ps qs i j base game_name slot_name ne hm hn am an = (
    compute_checksum-add_manifest_comm empty m n game_name slot_name ne,
    λ same.
        ne
          (owner_eq (sym (first_id m n p ps i base hm am) ∙ same ∙ first_id n m q qs j base hn an)),
  )
