-- ===== src/Session/File/Kept.antt =====
-- What a session file keeps of a session: `SessionState::to_json` and back.
use mathlib.Core.Option.{some-injective}
use apf_ue4ss.Prelude.{
  String, Bool, true, false, none, some, List, [], ◌∷◌, map, if◌then◌else◌, ◌≡◌, refl, ◌⊎◌, inl,
  inr, sym, ap, subst, ◌∙◌, ◌↔◌, arith, Option-cases, Bool-cases, In, here, there, In-map,
}
use apf_ue4ss.Prelude.Int.{ℤ, eqb_ℤ, eqb_ℤ_iff, eqb_ℤ_refl}
use apf_ue4ss.Prelude.Text.{to_string}
use apf_ue4ss.Prelude.Dict.{
  int_eq, string_eq, lookup, put, contains, add, lookup-put, lookup-put_self, contains-add,
}
use apf_ue4ss.Types.{SessionState}
use apf_ue4ss.Types.Json.{JsonOps, JsonLaws, value_text, value_integer, value, array_at}
use apf_ue4ss.Session.File.{
  FileOps, good, count_field, to_json, read_locations, read_counts, count_entries, read_last_active,
  from_json,
}

-- No key of a map stands twice.
abbrev pub Distinct : List (ℤ × ℤ) → Type 0
Distinct [] = Unit
Distinct ((id, count) ∷ counts) = (lookup id counts ≡ none) × Distinct counts

-- The documented behaviour: the pairs of an object are those it was built from, if no key stands
-- twice there, and `std::stoll` reads what `std::to_string` writes.
pub record FileLaws {J : Type 0} ⦃ops : JsonOps J⦄ (file : FileOps J) : Type 0 where
  pub entries-object :
      (counts : List (ℤ × ℤ))
      → Distinct counts
      → (x : String × J)
      → In x (file.entries (ops.object (map count_field counts))) ↔ In x (map count_field counts)
  pub stoll-to_string : (n : ℤ) → file.stoll (to_string n) ≡ some n

-- The session `s` has what a file keeps of `t`: the set and the map are compared by what they hold,
-- and the time is cut to what whole seconds keep of it.
pub record Kept {J : Type 0} (file : FileOps J) (s t : SessionState) : Type 0 where
  pub version : s.version ≡ t.version
  pub checksum : s.checksum ≡ t.checksum
  pub slot_name : s.slot_name ≡ t.slot_name
  pub game_name : s.game_name ≡ t.game_name
  pub received_item_index : s.received_item_index ≡ t.received_item_index
  pub checked_locations :
      (id : ℤ) → contains id s.checked_locations ≡ contains id t.checked_locations
  pub item_progression_counts :
      (id : ℤ) → lookup id s.item_progression_counts ≡ lookup id t.item_progression_counts
  pub ap_server : s.ap_server ≡ t.ap_server
  pub ap_port : s.ap_port ≡ t.ap_port
  pub last_active : s.last_active ≡ file.from_time_t (file.to_time_t t.last_active)

module _ {J : Type 0} ⦃ops : JsonOps J⦄ (laws : JsonLaws ops) where
  locations_back :
      (ids acc : List ℤ)
      → (l : List ℤ) × (read_locations (map (λ id. ops.integer id) ids) acc ≡ good l)
        × ((id : ℤ) → contains id l ≡ (if contains id ids then true else contains id acc))
  unfolding read_locations contains
  locations_back [] acc = (acc, refl, (λ id. refl))
  locations_back (k ∷ ids) acc =
      let (l, e, h) = locations_back ids (add k acc) in
      (
        l,
        rw (read_locations, laws.as_integer-integer k) e,
        (λ id. ground (arith, h id, contains-add k id acc, eqb_ℤ_iff k id)),
      )

is_cons : {A : Type 0} → List A → Bool
is_cons [] = false
is_cons (x ∷ xs) = true

In-is_cons : {A : Type 0} {x : A} {xs : List A} → In x xs → is_cons xs ≡ true
unfolding is_cons
In-is_cons here = refl
In-is_cons (there i) = refl

not-In : {A : Type 0} {x : A} → In x [] → false ≡ true
unfolding is_cons
not-In i = In-is_cons i

In-cons : {A : Type 0} {x y : A} {xs : List A} → In x (y ∷ xs) → (x ≡ y) ⊎ In x xs
In-cons here = inl refl
In-cons (there i) = inr i

pair-path : {a b m n : ℤ} → a ≡ b → m ≡ n → Path (ℤ × ℤ) (a, m) (b, n)
pair-path h k = rw (h, k) refl

In-map_back :
    {A B : Type 0} {f : A → B} {x : B} (xs : List A)
    → In x (map f xs)
    → (y : A) × In y xs × (x ≡ f y)
In-map_back [] i = absurd (cc (not-In i))
In-map_back (y ∷ xs) i = elim (In-cons i) [
  | inl e ↦ (y, here, e)
  | inr k ↦ let (z, j, e) = In-map_back xs k in (z, there j, e)
]

-- The pair of a key stands in a map without double keys exactly if the key leads to its value.
In-lookup :
    (counts : List (ℤ × ℤ)) (id n : ℤ)
    → Distinct counts
    → In (id, n) counts
    → lookup id counts ≡ some n
unfolding lookup
In-lookup [] id n d i = absurd (cc (not-In i))
In-lookup ((j, m) ∷ counts) id n d i = elim (In-cons i) [
  | inl e ↦ rw (sym (ap (λ x. x.0) e), eqb_ℤ_refl id) (ap (λ x. some x.1) (sym e))
  | inr k ↦ elim (Bool-cases (eqb_ℤ j id)) [
    | inl same ↦ absurd (cc (In-lookup counts id n d.1 k, d.0, (eqb_ℤ_iff j id).0 same))
    | inr other ↦ rw other (In-lookup counts id n d.1 k)
  ]
]

lookup-In : (counts : List (ℤ × ℤ)) (id n : ℤ) → lookup id counts ≡ some n → In (id, n) counts
unfolding lookup
lookup-In [] id n h = absurd (cc h)
lookup-In ((j, m) ∷ counts) id n h = elim (Bool-cases (eqb_ℤ j id)) [
  | inl same ↦
      subst (λ x. In x ((j, m) ∷ counts))
        (pair-path ((eqb_ℤ_iff j id).0 same) (some-injective m n (rw same at h))) here
  | inr other ↦ there (lookup-In counts id n (rw other at h))
]

module _ {J : Type 0} ⦃ops : JsonOps J⦄ (laws : JsonLaws ops) (file : FileOps J)
    (file_laws : FileLaws file) (counts : List (ℤ × ℤ)) where
  pub read-field :
      (id n : ℤ) (fields : List (String × J)) (acc : List (ℤ × ℤ))
      → read_counts file (count_field (id, n) ∷ fields) acc ≡ read_counts file fields (put id n acc)
  unfolding read_counts
  read-field id n fields acc =
      rw (read_counts, laws.as_integer-integer n, file_laws.stoll-to_string id) refl

  same-id : (j m id n : ℤ) → count_field {J = J} (j, m) ≡ count_field {J = J} (id, n) → j ≡ id
  same-id j m id n h = some-injective j id (
      sym (file_laws.stoll-to_string j)
      ∙ (ap (λ x. file.stoll x.0) h ∙ file_laws.stoll-to_string id))

  -- Pairs that stand for entries of the map are all read, and what is read agrees with the map.
  counts_back :
      (fields : List (String × J)) (acc : List (ℤ × ℤ))
      → ((x : String × J)
          → In x fields
          → (id : ℤ) × (n : ℤ) × (x ≡ count_field (id, n)) × (lookup id counts ≡ some n))
      → (l : List (ℤ × ℤ)) × (read_counts file fields acc ≡ good l)
        × ((id : ℤ) → (lookup id l ≡ lookup id acc) ⊎ (lookup id l ≡ lookup id counts))
        × ((id n : ℤ) → In (count_field (id, n)) fields → lookup id l ≡ lookup id counts)
  unfolding read_counts
  counts_back [] acc h = (acc, refl, (λ id. inl refl), (λ id n i. absurd (cc (not-In i))))
  counts_back ((key, val) ∷ fields) acc h =
      let (id, n, e, k) = h (key, val) here in
      let (l, r, keep, got) = counts_back fields (put id n acc) (λ x i. h x (there i)) in
      let settled : lookup id l ≡ lookup id counts = elim (keep id) [
        | inl k' ↦ k' ∙ (lookup-put_self id n acc ∙ sym k)
        | inr k' ↦ k'
      ] in
      (
        l,
        ap (λ x. read_counts file (x ∷ fields) acc) e ∙ (read-field id n fields acc ∙ r),
        (λ j. elim (Bool-cases (eqb_ℤ id j)) [
          | inl same ↦
              inr (subst (λ i. lookup i l ≡ lookup i counts) ((eqb_ℤ_iff id j).0 same) settled)
          | inr other ↦ elim (keep j) [
            | inl k' ↦ inl (k' ∙ rw (lookup-put id j n acc, other) refl)
            | inr k' ↦ inr k'
          ]
        ]),
        (λ j m i. elim (In-cons i) [
          | inr i' ↦ got j m i'
          | inl e' ↦
              subst (λ i. lookup i l ≡ lookup i counts) (sym (same-id j m id n (e' ∙ e))) settled
        ]),
      )

module _ {J : Type 0} ⦃ops : JsonOps J⦄ (laws : JsonLaws ops) (file : FileOps J)
    (file_laws : FileLaws file) where
  entry_back :
      (counts : List (ℤ × ℤ)) (x : String × J)
      → Distinct counts
      → In x (map count_field counts)
      → (id : ℤ) × (n : ℤ) × (x ≡ count_field (id, n)) × (lookup id counts ≡ some n)
  entry_back counts x d i =
      let (y, j, e) = In-map_back counts i in (y.0, y.1, e, In-lookup counts y.0 y.1 d j)

  lookup_back :
      (counts l : List (ℤ × ℤ)) (id : ℤ)
      → (lookup id l ≡ none) ⊎ (lookup id l ≡ lookup id counts)
      → ((n : ℤ) → lookup id counts ≡ some n → lookup id l ≡ lookup id counts)
      → lookup id l ≡ lookup id counts
  lookup_back counts l id h k = elim (Option-cases (lookup id counts)) [
    | inr (n, e) ↦ k n e
    | inl e ↦ elim h [ inl absent ↦ absent ∙ sym e | inr same ↦ same ]
  ]

  contains_back :
      (ids l : List ℤ) (id : ℤ)
      → contains id l ≡ (if contains id ids then true else contains id [])
      → contains id l ≡ contains id ids
  unfolding contains
  contains_back ids l id h = ground (arith, h)

  array_back :
      (s : SessionState)
      → array_at (to_json file s) "checked_locations"
        ≡ map (λ id. ops.integer id) s.checked_locations
  unfolding array_at to_json lookup
  array_back s = rw (array_at, laws.member-object, laws.as_array-array) refl

  entries_back :
      (s : SessionState)
      → count_entries file (to_json file s)
        ≡ file.entries (ops.object (map count_field s.item_progression_counts))
  unfolding count_entries to_json lookup
  entries_back s = rw (count_entries, laws.member-object, laws.is_object-object) refl

  last_active_back :
      (s : SessionState)
      → read_last_active file (to_json file s)
        ≡ good (file.from_time_t (file.to_time_t s.last_active))
  unfolding read_last_active to_json lookup
  last_active_back s = rw (read_last_active, laws.member-object, laws.as_integer-integer) refl

  -- A session is read back from its document, its time in whole seconds.
  pub from_json-to_json-Kept :
      (s : SessionState)
      → Distinct s.item_progression_counts
      → (t : SessionState) × (from_json file (to_json file s) ≡ good t) × Kept file t s
  unfolding from_json to_json value_text value_integer value array_at count_entries read_last_active
      lookup
  from_json-to_json-Kept s d =
      let counts = s.item_progression_counts in
      let fields = map count_field counts in
      let (locations, e, hl) = locations_back laws s.checked_locations [] in
      let (l, r, keep, got) =
        counts_back laws file file_laws counts (file.entries (ops.object fields)) []
          (λ x i. entry_back counts x d ((file_laws.entries-object counts d x).0 i)) in
      (
        record s {
          checked_locations = locations;
          item_progression_counts = l;
          last_active = file.from_time_t (file.to_time_t s.last_active);
        },
        simp (
          from_json, laws.is_object-object, laws.member-object, laws.as_text-text,
          laws.as_integer-integer, array_back, entries_back, last_active_back, e, r,
        ),
        record {
          version = refl;
          checksum = refl;
          slot_name = refl;
          game_name = refl;
          received_item_index = refl;
          checked_locations = λ id. contains_back s.checked_locations locations id (hl id);
          item_progression_counts = λ id. lookup_back counts l id (keep id) (λ n k. got id n (
              (file_laws.entries-object counts d (count_field (id, n))).1
                (In-map count_field (lookup-In counts id n k))));
          ap_server = refl;
          ap_port = refl;
          last_active = refl;
        },
      )
