-- ===== src/Capabilities/Ids.antt =====
-- `assign_ids`: locations first, then items, one after the other from the base, so that an id leads
-- back to its entry.
use apf_ue4ss.Prelude.{
  ℕ, zero, suc, ◌+◌, ◌≤◌, ◌<◌, false, ◌≡◌, refl, sym, ◌∙◌, ap, none, some, List, [], ◌∷◌, length,
  find, get_elem?, arith,
}
use apf_ue4ss.Prelude.Int.{
  ℤ, pos, ◌+ℤ◌, eqb_ℤ, eqb_ℤ_iff, eqb_ℤ-later, +ℤ-suc, +ℤ-zero, +ℤ-pos, eqb_ℤ-offset,
}
use apf_ue4ss.Types.{LocationOwnership, ItemOwnership}
use apf_ue4ss.Capabilities.{
  Capabilities, number_locations, number_items, assign_ids, get_location_by_id, get_item_by_id,
}

pub length-number_locations :
    (c : ℤ) (locs : List LocationOwnership) → length (number_locations c locs) ≡ length locs
unfolding number_locations
length-number_locations c [] = refl
length-number_locations c (loc ∷ locs) = ap suc (length-number_locations (c +ℤ pos 1) locs)

in_range {ℓ} : {A : Type ℓ} (xs : List A) (k : ℕ) (x : A) → get_elem? xs k ≡ some x → k < length xs
in_range [] k x h = cc
in_range (y ∷ xs) zero x h = omega arith
in_range (y ∷ xs) (suc k) x h = omega (arith, in_range xs k x h)

-- An id that is `c + 0`, and one that comes later.
id_first : (c id : ℤ) → id ≡ c +ℤ pos 0 → c ≡ id
id_first c id e = sym (e ∙ +ℤ-zero c)

id_later : (c id : ℤ) (k : ℕ) → id ≡ c +ℤ pos (suc k) → eqb_ℤ c id ≡ false
id_later c id k e = rw e (eqb_ℤ-later c k)

number_locations_at :
    (c id : ℤ) (locs : List LocationOwnership) (k : ℕ) (loc : LocationOwnership)
    → id ≡ c +ℤ pos k
    → get_elem? locs k ≡ some loc
    → find (λ l. eqb_ℤ l.location_id id) (number_locations c locs)
      ≡ some (record loc { location_id = id })
unfolding number_locations find
number_locations_at c id [] k loc e h = cc
number_locations_at c id (l ∷ locs) zero loc e h =
    rw ((eqb_ℤ_iff c id).1 (id_first c id e)) (cc (id_first c id e, h))
number_locations_at c id (l ∷ locs) (suc k) loc e h =
    rw (id_later c id k e) (number_locations_at (c +ℤ pos 1) id locs k loc (e ∙ +ℤ-suc c k) h)

-- Past the last number nothing is found.
number_locations_past :
    (c id : ℤ) (locs : List LocationOwnership) (k : ℕ)
    → id ≡ c +ℤ pos k
    → length locs ≤ k
    → find (λ l. eqb_ℤ l.location_id id) (number_locations c locs) ≡ none
unfolding number_locations find
number_locations_past c id [] k e h = refl
number_locations_past c id (l ∷ locs) zero e h = absurd (omega arith)
number_locations_past c id (l ∷ locs) (suc k) e h =
    rw (id_later c id k e)
      (number_locations_past (c +ℤ pos 1) id locs k (e ∙ +ℤ-suc c k) (omega arith))

module _ {J : Type 0} where
  number_items_at :
      (c id : ℤ) (items : List (ItemOwnership J)) (k : ℕ) (item : ItemOwnership J)
      → id ≡ c +ℤ pos k
      → get_elem? items k ≡ some item
      → find (λ i. eqb_ℤ i.item_id id) (number_items c items) ≡ some (record item { item_id = id })
  unfolding number_items find
  number_items_at c id [] k item e h = cc
  number_items_at c id (i ∷ items) zero item e h =
      rw ((eqb_ℤ_iff c id).1 (id_first c id e)) (cc (id_first c id e, h))
  number_items_at c id (i ∷ items) (suc k) item e h =
      rw (id_later c id k e) (number_items_at (c +ℤ pos 1) id items k item (e ∙ +ℤ-suc c k) h)

  -- Before the first number nothing is found.
  number_items_before :
      (c d id : ℤ) (n : ℕ) (items : List (ItemOwnership J)) (k : ℕ)
      → id ≡ c +ℤ pos k
      → d ≡ c +ℤ pos n
      → k < n
      → find (λ i. eqb_ℤ i.item_id id) (number_items d items) ≡ none
  unfolding number_items find
  number_items_before c d id n [] k e f h = refl
  number_items_before c d id n (i ∷ items) k e f h =
      let other : eqb_ℤ d id ≡ false = rw (e, f) (eqb_ℤ-offset c n k (omega arith)) in
      rw other (
        number_items_before c (d +ℤ pos 1) id (n + 1) items k e
          (ap (λ x. x +ℤ pos 1) f ∙ +ℤ-pos c n 1) (omega arith))

  -- After `assign_ids base` the id `base + k` leads to the k-th location, with all else of it
  -- unchanged, and to no item.
  pub location_ids :
      (s : Capabilities J) (base : ℤ) (k : ℕ) (loc : LocationOwnership)
      → get_elem? s.locations k ≡ some loc
      → (get_location_by_id (assign_ids s base) (base +ℤ pos k)
          ≡ some (record loc { location_id = base +ℤ pos k }))
        × (get_item_by_id (assign_ids s base) (base +ℤ pos k) ≡ none)
  unfolding assign_ids get_location_by_id get_item_by_id
  location_ids s base k loc h = (
    number_locations_at base (base +ℤ pos k) s.locations k loc refl h,
    number_items_before base (base +ℤ pos (length s.locations)) (base +ℤ pos k) (length s.locations)
        s.items k refl refl (in_range s.locations k loc h),
  )

  -- After `assign_ids base`, with n locations, the id `base + n + k` leads to the k-th item, with
  -- all else of it unchanged, and to no location.
  pub item_ids :
      (s : Capabilities J) (base : ℤ) (k : ℕ) (item : ItemOwnership J)
      → get_elem? s.items k ≡ some item
      → let id = base +ℤ pos (length s.locations + k) in
        (get_item_by_id (assign_ids s base) id ≡ some (record item { item_id = id }))
        × (get_location_by_id (assign_ids s base) id ≡ none)
  unfolding assign_ids get_location_by_id get_item_by_id
  item_ids s base k item h = (
    number_items_at (base +ℤ pos (length s.locations)) (base +ℤ pos (length s.locations + k))
        s.items k item (sym (+ℤ-pos base (length s.locations) k)) h,
    number_locations_past base (base +ℤ pos (length s.locations + k)) s.locations
        (length s.locations + k) refl (omega arith),
  )
