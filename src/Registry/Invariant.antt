-- ===== src/Registry/Invariant.antt =====
-- What holds of the registry between two calls, and what discovery does.
use apf_ue4ss.Prelude.{
  ℕ, ◌+◌, String, true, false, ◌≡◌, refl, Option, none, some, List, [], ◌∷◌, length, All, arith,
  eq_iff, Bool-cases, Option-cases, inl, inr, ◌⊎◌, sym, ◌∙◌,
}
use apf_ue4ss.Prelude.Text.{str_eq}
use apf_ue4ss.Prelude.Dict.{string_eq, lookup, put, contains, lookup-put, contains-add}
use apf_ue4ss.Types.{Manifest}
use apf_ue4ss.Registry.{
  Registry, DirEntry, is_some, empty, add_manifest, discover_entry, discover_entries,
  discover_manifests, clear, mark_registered, reset_registrations, get_manifest, count,
}

not_some {ℓ} : {A : Type ℓ} (o : Option A) → is_some o ≡ false → o ≡ none
not_some none h = refl
not_some (some a) h = cc

module _ {J : Type 0} where
  -- No key stands twice.
  abbrev pub Distinct : List (String × Manifest J) → Type 0
  Distinct [] = Unit
  Distinct ((k, m) ∷ rest) = (lookup k rest ≡ none) × Distinct rest

  -- Each manifest stands once, under its own id; what is registered is known.
  pub record Inv (r : Registry J) : Type 0 where
    pub keyed : All (λ entry. entry.0 ≡ entry.1.mod_id) r.manifests
    pub distinct : Distinct r.manifests
    pub known :
        (id : String) → contains id r.registered ≡ true → is_some (lookup id r.manifests) ≡ true

  put_keyed :
      (m : Manifest J) (ms : List (String × Manifest J))
      → All (λ entry. entry.0 ≡ entry.1.mod_id) ms
      → All (λ entry. entry.0 ≡ entry.1.mod_id) (put m.mod_id m ms)
  unfolding put
  put_keyed m [] h = (refl, tt)
  put_keyed m ((k, n) ∷ ms) h = ground (arith, eq_iff k m.mod_id, put_keyed m ms h.1)

  lookup-put_other :
      (k j : String) (m : Manifest J) (ms : List (String × Manifest J))
      → str_eq k j ≡ false
      → lookup j (put k m ms) ≡ lookup j ms
  lookup-put_other k j m ms h = rw (lookup-put k j m ms, h)

  put-Distinct :
      (k : String) (m : Manifest J) (ms : List (String × Manifest J))
      → lookup k ms ≡ none
      → Distinct ms
      → Distinct (put k m ms)
  unfolding lookup put
  put-Distinct k m [] h d = (refl, tt)
  put-Distinct k m ((j, n) ∷ ms) h d =
      ground (arith, eq_iff j k, eq_iff k j, lookup-put_other k j m ms, put-Distinct k m ms)

  length-put :
      (k : String) (m : Manifest J) (ms : List (String × Manifest J))
      → lookup k ms ≡ none
      → length (put k m ms) ≡ length ms + 1
  unfolding lookup put
  length-put k m [] h = omega arith
  length-put k m ((j, n) ∷ ms) h = ground (arith, length-put k m ms)

  is_some-put :
      (k id : String) (m : Manifest J) (ms : List (String × Manifest J))
      → is_some (lookup id ms) ≡ true
      → is_some (lookup id (put k m ms)) ≡ true
  is_some-put k id m ms h = ground (arith, lookup-put k id m ms)

  -- The insertion that `add_manifest` and `discover_manifests` make under their guard.
  entered : Registry J → Manifest J → Registry J
  entered r m = record r { manifests = put m.mod_id m r.manifests }

  entered-Inv :
      (r : Registry J) (m : Manifest J)
      → is_some (lookup m.mod_id r.manifests) ≡ false
      → Inv r
      → Inv (entered r m)
  unfolding entered
  entered-Inv r m h v = record {
    keyed = put_keyed m r.manifests v.keyed;
    distinct =
        put-Distinct m.mod_id m r.manifests (not_some (lookup m.mod_id r.manifests) h) v.distinct;
    known = λ id c. is_some-put m.mod_id id m r.manifests (v.known id c);
  }

  add_manifest-Inv : (r : Registry J) (m : Manifest J) → Inv r → Inv (add_manifest r m).0
  unfolding add_manifest
  add_manifest-Inv r m v = elim (Bool-cases (is_some (lookup m.mod_id r.manifests))) [
    | inl old ↦ rw old v
    | inr new ↦ rw new (unfold entered in entered-Inv r m new v)
  ]

  -- What one entry of the mods folder does: nothing, or one insertion that is counted.
  discover_entry_cases {κ} :
      (P : Registry J × ℕ → Type κ) (r : Registry J) (n : ℕ) (entry : DirEntry J)
      → P (r, n)
      → ((m : Manifest J)
          → entry.manifest ≡ some m
          → is_some (lookup m.mod_id r.manifests) ≡ false
          → P (entered r m, n + 1))
      → P (discover_entry (r, n) entry)
  unfolding discover_entry entered
  discover_entry_cases P r n entry same new = elim (Bool-cases entry.is_directory) [
    | inr no_dir ↦ rw no_dir same
    | inl dir ↦ elim (Bool-cases entry.has_manifest) [
      | inr no_file ↦ rw (dir, no_file) same
      | inl file ↦ elim (Option-cases entry.manifest) [
        | inl broken ↦ rw (dir, file, broken) same
        | inr (m, e) ↦ elim (Bool-cases (is_some (lookup m.mod_id r.manifests))) [
          | inl old ↦ rw (dir, file, e, old) same
          | inr fresh ↦ rw (dir, file, e, fresh) (new m e fresh)
        ]
      ]
    ]
  ]

  discover_entries_ind {κ} :
      (P : Registry J × ℕ → Type κ)
      → ((st : Registry J × ℕ) (entry : DirEntry J) → P st → P (discover_entry st entry))
      → (st : Registry J × ℕ) (entries : List (DirEntry J)) → P st
      → P (discover_entries st entries)
  unfolding discover_entries
  discover_entries_ind P step st [] h = h
  discover_entries_ind P step st (entry ∷ entries) h =
      discover_entries_ind P step (discover_entry st entry) entries (step st entry h)

  -- What discovery keeps, seen from the registry `r` that it started with.
  abbrev Keeps : Registry J → Registry J × ℕ → Type 0
  Keeps r st =
      (count st.0 ≡ count r + st.1)
      × ((id : String) (m : Manifest J)
          → get_manifest r id ≡ some m
          → get_manifest st.0 id ≡ some m)
      × (st.0.registered ≡ r.registered)

  entered-Keeps :
      (r s : Registry J) (n : ℕ) (m : Manifest J)
      → is_some (lookup m.mod_id s.manifests) ≡ false
      → Keeps r (s, n)
      → Keeps r (entered s m, n + 1)
  unfolding entered count get_manifest
  entered-Keeps r s n m fresh k = (
    omega (arith, length-put m.mod_id m s.manifests (not_some _ fresh), k.0),
    λ id x e. ground (
      arith,
      k.1 id x e,
      eq_iff m.mod_id id,
      lookup-put m.mod_id id m s.manifests,
      not_some (lookup m.mod_id s.manifests) fresh,
    ),
    k.2,
  )

  discover_manifests-Keeps :
      (r : Registry J) (folder : Option (List (DirEntry J))) → Keeps r (discover_manifests r folder)
  unfolding discover_manifests
  discover_manifests-Keeps r none = (omega arith, λ id m e. e, refl)
  discover_manifests-Keeps r (some entries) =
      discover_entries_ind (Keeps r)
        (λ st entry k.
          discover_entry_cases (Keeps r) st.0 st.1 entry k
            (λ m e fresh. entered-Keeps r st.0 st.1 m fresh k))
        (r, 0) entries (omega arith, λ id m e. e, refl)

  -- Whatever the registry and the folder, `discover_manifests` returns by how much the registry has
  -- grown, what was known under an id stays the one under it, and the registrations stay as they were.
  pub discover_manifests_lem :
      (r : Registry J) (folder : Option (List (DirEntry J)))
      → let st = discover_manifests r folder in
        (count st.0 ≡ count r + st.1)
        × ((id : String) → (get_manifest r id ≡ none) ⊎ (get_manifest st.0 id ≡ get_manifest r id))
        × (st.0.registered ≡ r.registered)
  discover_manifests_lem r folder =
      let k = discover_manifests-Keeps r folder in
      (
        k.0,
        (λ id. elim (Option-cases (get_manifest r id)) [
          | inl e ↦ inl e
          | inr (m, e) ↦ inr (k.1 id m e ∙ sym e)
        ]),
        k.2,
      )

  discover-Inv :
      (r : Registry J) (folder : Option (List (DirEntry J)))
      → Inv r
      → Inv (discover_manifests r folder).0
  unfolding discover_manifests
  discover-Inv r none v = v
  discover-Inv r (some entries) v =
      discover_entries_ind (λ st. Inv st.0)
        (λ st entry h.
          discover_entry_cases (λ t. Inv t.0) st.0 st.1 entry h
            (λ m e fresh. entered-Inv st.0 m fresh h))
        (r, 0) entries v

  mark_registered-Inv : (r : Registry J) (id : String) → Inv r → Inv (mark_registered r id).0
  unfolding mark_registered
  mark_registered-Inv r id v = elim (Bool-cases (is_some (lookup id r.manifests))) [
    | inr unknown ↦ rw unknown v
    | inl known ↦ rw known (record {
      keyed = v.keyed;
      distinct = v.distinct;
      known = λ j c. ground (arith, contains-add id j r.registered, eq_iff id j, v.known j);
    })
  ]

-- The calls that change the registry.
pub data Call (J : Type 0) : Type 0 where
  adds : Manifest J → Call J
  discovers : Option (List (DirEntry J)) → Call J
  marks : String → Call J
  resets clears : Call J

module _ {J : Type 0} where
  unfoldable pub step : Registry J → Call J → Registry J
  step r (adds m) = (add_manifest r m).0
  step r (discovers folder) = (discover_manifests r folder).0
  step r (marks id) = (mark_registered r id).0
  step r resets = reset_registrations r
  step r clears = clear r

  unfoldable pub run : Registry J → List (Call J) → Registry J
  run r [] = r
  run r (c ∷ cs) = run (step r c) cs

  step-Inv : (r : Registry J) (c : Call J) → Inv r → Inv (step r c)
  unfolding step reset_registrations clear contains
  step-Inv r (adds m) v = add_manifest-Inv r m v
  step-Inv r (discovers folder) v = discover-Inv r folder v
  step-Inv r (marks id) v = mark_registered-Inv r id v
  step-Inv r resets v = record { keyed = v.keyed; distinct = v.distinct; known = λ id c. cc c }
  step-Inv r clears v = record { keyed = tt; distinct = tt; known = λ id c. cc c }

  run_from-Inv : (r : Registry J) (cs : List (Call J)) → Inv r → Inv (run r cs)
  unfolding run
  run_from-Inv r [] v = v
  run_from-Inv r (c ∷ cs) v = run_from-Inv (step r c) cs (step-Inv r c v)

  -- After any calls on a new registry each manifest stands once, under its own id, and every
  -- registered id has a manifest.
  pub run-Inv : (cs : List (Call J)) → Inv (run empty cs)
  unfolding contains
  run-Inv cs = run_from-Inv empty cs (record { keyed = tt; distinct = tt; known = λ id c. cc c })
