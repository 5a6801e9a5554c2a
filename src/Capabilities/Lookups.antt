-- ===== src/Capabilities/Lookups.antt =====
-- The searches by name and by id agree, once ids are assigned.
use apf_ue4ss.Prelude.{
  ℕ, suc, String, true, ◌&&◌, ◌≡◌, ◌≢◌, refl, sym, ◌∙◌, ap, some, List, [], ◌∷◌, get_elem?, eq_iff,
  and_true, Bool-cases, inl, inr,
}
use apf_ue4ss.Prelude.Int.{ℤ, pos, ◌+ℤ◌, eqb_ℤ, eqb_ℤ_iff, +ℤ-zero, +ℤ-suc}
use apf_ue4ss.Prelude.Text.{str_eq}
use apf_ue4ss.Types.{LocationOwnership}
use apf_ue4ss.Capabilities.{
  Capabilities, number_locations, assign_ids, get_location_id_in, get_location_id,
  get_location_by_id,
}
use apf_ue4ss.Capabilities.Ids.{location_ids}

-- The location that the mod, the name and the instance describe.
abbrev pub Names : String → String → ℤ → LocationOwnership → Type 0
Names mod_id name instance_no loc =
    (loc.mod_id ≡ mod_id) × (loc.location_name ≡ name) × (loc.instance_no ≡ instance_no)

named_here :
    (c : ℤ) (l : LocationOwnership) (locs : List LocationOwnership) (mod_id name : String)
    (instance_no : ℤ)
    → (str_eq l.mod_id mod_id && (str_eq l.location_name name && eqb_ℤ l.instance_no instance_no))
      ≡ true
    → (k : ℕ) × (loc : LocationOwnership) × (get_elem? (l ∷ locs) k ≡ some loc)
      × Names mod_id name instance_no loc
      × (get_location_id_in (number_locations c (l ∷ locs)) mod_id name instance_no ≡ c +ℤ pos k)
unfolding get_location_id_in number_locations
named_here c l locs mod_id name instance_no hit =
    let (a, b) = and_true hit in
    let (b', d) = and_true b in
    (
      0,
      l,
      refl,
      (
        (eq_iff l.mod_id mod_id).0 a,
        (eq_iff l.location_name name).0 b',
        (eqb_ℤ_iff l.instance_no instance_no).0 d,
      ),
      rw hit (sym (+ℤ-zero c)),
    )

-- The search by name in a numbered list ends at an entry with the name, or with 0.
named_entry :
    (c : ℤ) (locs : List LocationOwnership) (mod_id name : String) (instance_no : ℤ)
    → get_location_id_in (number_locations c locs) mod_id name instance_no ≢ pos 0
    → (k : ℕ) × (loc : LocationOwnership) × (get_elem? locs k ≡ some loc)
      × Names mod_id name instance_no loc
      × (get_location_id_in (number_locations c locs) mod_id name instance_no ≡ c +ℤ pos k)
unfolding get_location_id_in number_locations
named_entry c [] mod_id name instance_no h = absurd (h refl)
named_entry c (l ∷ locs) mod_id name instance_no h =
    elim (Bool-cases (
      str_eq l.mod_id mod_id && (str_eq l.location_name name && eqb_ℤ l.instance_no instance_no))) [
        | inl hit ↦ named_here c l locs mod_id name instance_no hit
        | inr miss ↦
            let skip : get_location_id_in (number_locations c (l ∷ locs)) mod_id name instance_no
                ≡ get_location_id_in (number_locations (c +ℤ pos 1) locs) mod_id name instance_no =
              rw miss in
            let (k, loc, at, named, id) =
              named_entry (c +ℤ pos 1) locs mod_id name instance_no (λ e. h (skip ∙ e)) in
            (suc k, loc, at, named, skip ∙ id ∙ sym (+ℤ-suc c k))
      ]

module _ {J : Type 0} (s : Capabilities J) (base : ℤ) (mod_id name : String) (instance_no : ℤ) where
  named_id :
      get_location_id (assign_ids s base) mod_id name instance_no ≢ pos 0
      → (k : ℕ) × (loc : LocationOwnership) × (get_elem? s.locations k ≡ some loc)
        × Names mod_id name instance_no loc
        × (get_location_id (assign_ids s base) mod_id name instance_no ≡ base +ℤ pos k)
  unfolding get_location_id assign_ids
  named_id h = named_entry base s.locations mod_id name instance_no h

  -- A location id other than 0 that `get_location_id` finds after `assign_ids` leads back: by it
  -- `get_location_by_id` returns an entry with that id and with the mod, the name and the instance
  -- that were asked for.
  pub get_location_by_id-get_location_id :
      let t = assign_ids s base in
      let id = get_location_id t mod_id name instance_no in
      id ≢ pos 0
      → (loc : LocationOwnership) × (get_location_by_id t id ≡ some loc)
        × Names mod_id name instance_no loc
        × (loc.location_id ≡ id)
  get_location_by_id-get_location_id h =
      let (k, loc, at, named, id) = named_id h in
      (
        record loc { location_id = base +ℤ pos k },
        ap (get_location_by_id (assign_ids s base)) id ∙ (location_ids s base k loc at).0,
        named,
        sym id,
      )
