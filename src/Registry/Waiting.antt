-- ===== src/Registry/Waiting.antt =====
-- Whom the framework waits for in the registration phases.
use apf_ue4ss.Prelude.{
  ◌+◌, String, Bool, true, not, ◌&&◌, ◌≡◌, ◌↔◌, refl, ◌∙◌, ap, List, [], ◌∷◌, map, length, filter,
  all, All, In, here, there, arith, if◌then◌else◌, eq_iff, Bool-cases, inl, inr, and_true, In-map,
  In-filter, all_intro,
}
use apf_ue4ss.Prelude.Text.{str_eq}
use apf_ue4ss.Prelude.Dict.{string_eq, lookup, contains, contains-add}
use apf_ue4ss.Types.{Manifest}
use apf_ue4ss.Registry.Pattern.{is_priority_client}
use apf_ue4ss.Registry.{
  Registry, is_some, is_pending, mark_registered, is_registered, all_registered,
  get_enabled_manifests, get_pending_registrations, get_priority_clients, get_regular_mods,
}

module _ {ℓ} {A : Type ℓ} where
  all-filter : (p : A → Bool) (xs : List A) → (all (λ x. not (p x)) xs ≡ true) ↔ (filter p xs ≡ [])
  unfolding all filter
  all-filter p [] = (λ h. refl, λ h. refl)
  all-filter p (x ∷ xs) =
      (λ h. ground (arith, all-filter p xs), λ h. ground (arith, all-filter p xs))

map_nil {ℓ κ} : {A : Type ℓ} {B : Type κ} (f : A → B) (xs : List A) → map f xs ≡ [] → xs ≡ []
map_nil f [] h = refl
map_nil f (x ∷ xs) h = cc

module _ {J : Type 0} where
  -- All mods are registered exactly if no registration is pending.
  pub all_registered_iff :
      (r : Registry J) → (all_registered r ≡ true) ↔ (get_pending_registrations r ≡ [])
  unfolding all_registered get_pending_registrations
  all_registered_iff r = (
    λ h. ap (map (λ entry. entry.0)) ((all-filter (is_pending r) r.manifests).0 h),
    λ h. (all-filter (is_pending r) r.manifests).1 (map_nil (λ entry. entry.0) _ h),
  )

  -- `mark_registered` for each id of a list.
  unfoldable pub mark_all : Registry J → List String → Registry J
  mark_all r [] = r
  mark_all r (id ∷ ids) = mark_all (mark_registered r id).0 ids

  manifests-mark_registered :
      (r : Registry J) (id : String) → (mark_registered r id).0.manifests ≡ r.manifests
  unfolding mark_registered
  manifests-mark_registered r id = ground arith

  manifests-mark_all :
      (r : Registry J) (ids : List String) → (mark_all r ids).manifests ≡ r.manifests
  unfolding mark_all
  manifests-mark_all r [] = refl
  manifests-mark_all r (id ∷ ids) =
      manifests-mark_all (mark_registered r id).0 ids ∙ manifests-mark_registered r id

  -- A known mod is registered by `mark_registered`, with the other mods as they were; an unknown id is
  -- refused and changes nothing.
  pub mark_registered_lem :
      (r : Registry J) (id j : String)
      → ((mark_registered r id).1 ≡ is_some (lookup id r.manifests))
        × (is_registered (mark_registered r id).0 j
            ≡ (if str_eq id j && is_some (lookup id r.manifests) then true else is_registered r j))
  unfolding mark_registered is_registered
  mark_registered_lem r id j = ground (arith, contains-add id j r.registered)

  mark_registered_keeps :
      (r : Registry J) (id j : String)
      → contains j r.registered ≡ true
      → contains j (mark_registered r id).0.registered ≡ true
  unfolding mark_registered
  mark_registered_keeps r id j h = ground (arith, contains-add id j r.registered)

  mark_all_keeps :
      (r : Registry J) (ids : List String) (j : String)
      → contains j r.registered ≡ true
      → contains j (mark_all r ids).registered ≡ true
  unfolding mark_all
  mark_all_keeps r [] j h = h
  mark_all_keeps r (id ∷ ids) j h =
      mark_all_keeps (mark_registered r id).0 ids j (mark_registered_keeps r id j h)

  mark_registered_self :
      (r : Registry J) (id : String)
      → is_some (lookup id r.manifests) ≡ true
      → contains id (mark_registered r id).0.registered ≡ true
  unfolding mark_registered
  mark_registered_self r id h = ground (arith, contains-add id id r.registered, eq_iff id id)

  mark_all_marks :
      (r : Registry J) (ids : List String) (j : String)
      → In j ids
      → is_some (lookup j r.manifests) ≡ true
      → contains j (mark_all r ids).registered ≡ true
  unfolding mark_all
  mark_all_marks r [] j i h = elim i [ ]
  mark_all_marks r (id ∷ ids) j here h =
      mark_all_keeps (mark_registered r j).0 ids j (mark_registered_self r j h)
  mark_all_marks r (id ∷ ids) j (there i) h =
      mark_all_marks (mark_registered r id).0 ids j i
        (ap (λ ms. is_some (lookup j ms)) (manifests-mark_registered r id) ∙ h)

  lookup-In :
      (x : String × Manifest J) (ms : List (String × Manifest J))
      → In x ms
      → is_some (lookup x.0 ms) ≡ true
  unfolding lookup
  lookup-In x [] i = elim i [ ]
  lookup-In x (y ∷ ms) here = ground (arith, eq_iff x.0 x.0)
  lookup-In x (y ∷ ms) (there i) = ground (arith, lookup-In x ms i)

  -- After all pending mods have registered, no entry is pending.
  entry_settled :
      (r : Registry J) (x : String × Manifest J)
      → In x r.manifests
      → not (is_pending (mark_all r (get_pending_registrations r)) x) ≡ true
  unfolding get_pending_registrations
  entry_settled r x i =
      let ids = map (λ entry. entry.0) (filter (is_pending r) r.manifests) in
      elim (Bool-cases (is_pending r x)) [
        | inl waits ↦
            let listed = In-map (λ entry. entry.0) (In-filter (is_pending r) waits i) in
            let marked = mark_all_marks r ids x.0 listed (lookup-In x r.manifests i) in ground arith
        | inr settled ↦ ground (arith, mark_all_keeps r ids x.0)
      ]

  -- Once every pending mod has registered, all mods are registered.
  pub mark_all_pending :
      (r : Registry J) → all_registered (mark_all r (get_pending_registrations r)) ≡ true
  unfolding all_registered
  mark_all_pending r =
      let after = mark_all r (get_pending_registrations r) in
      ap (all (λ entry. not (is_pending after entry)))
        (manifests-mark_all r (get_pending_registrations r))
      ∙ all_intro (λ entry. not (is_pending after entry)) r.manifests (entry_settled r)

  partition :
      (p q : String × Manifest J → Bool) (ms : List (String × Manifest J))
      → length (map (λ entry. entry.0) (filter (λ entry. p entry && q entry) ms))
          + length (map (λ entry. entry.0) (filter (λ entry. p entry && not (q entry)) ms))
        ≡ length (filter p ms)
  unfolding filter
  partition p q [] = omega arith
  partition p q (x ∷ ms) = ground (arith, partition p q ms)

  enabled_length :
      (ms : List (String × Manifest J))
      → length (filter (λ entry. entry.1.enabled) ms)
        ≡ length (filter (λ m. m.enabled) (map (λ entry. entry.1) ms))
  unfolding filter
  enabled_length [] = refl
  enabled_length (x ∷ ms) = ground (arith, enabled_length ms)

  priority_only :
      (ms : List (String × Manifest J))
      → All
          (λ id. is_priority_client id ≡ true)
          (map
            (λ entry. entry.0)
            (filter (λ entry. entry.1.enabled && is_priority_client entry.0) ms))
  unfolding filter
  priority_only [] = tt
  priority_only ((id, m) ∷ ms) = elim (Bool-cases (m.enabled && is_priority_client id)) [
    | inl hit ↦ rw hit ((and_true hit).1, priority_only ms)
    | inr miss ↦ rw miss (priority_only ms)
  ]

  -- The priority clients and the regular mods are together as many as the enabled manifests, and each
  -- of the former is a priority client by its id.
  pub clients_partition :
      (r : Registry J)
      → (length (get_priority_clients r) + length (get_regular_mods r)
          ≡ length (get_enabled_manifests r))
        × All (λ id. is_priority_client id ≡ true) (get_priority_clients r)
  unfolding get_priority_clients get_regular_mods get_enabled_manifests
  clients_partition r = (
    partition (λ entry. entry.1.enabled) (λ entry. is_priority_client entry.0) r.manifests
        ∙ enabled_length r.manifests,
    priority_only r.manifests,
  )
