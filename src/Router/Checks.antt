-- ===== src/Router/Checks.antt =====
-- Location checks in sequence: what reaches the server over any run of requests.
use apf_ue4ss.Prelude.{
  ℕ, ◌+◌, String, Bool, true, false, not, ◌&&◌, ◌≡◌, refl, sym, ◌∙◌, ap, Option, none, some, List,
  [], ◌∷◌, ◌++◌, arith, if◌then◌else◌, Bool-cases, inl, inr, subst,
}
use mathlib.Core.List.{append_assoc, append-nil}
use apf_ue4ss.Prelude.Int.{ℤ, pos, eqb_ℤ, eqb_ℤ_iff}
use apf_ue4ss.Capabilities.{Capabilities, get_location_id}
use apf_ue4ss.Session.{StateManager, is_location_checked, add_checked_location}
use apf_ue4ss.Session.Counts.{occurrences, is_location_checked-add}
use apf_ue4ss.Router.{
  Router, Effect, checks, sent, broadcasted, scouts, new_checks, none_left, already_checked,
  mark_checked, route_location_check, route_location_checks,
}

abbrev pub to_nat : Bool → ℕ
to_nat true = 1
to_nat false = 0

-- A request to the router: by name, or a list of ids.
pub data Request : Type 0 where
  by_name : String → String → ℤ → Request
  by_ids : List ℤ → Request

occurrences-append :
    (j : ℤ) (xs ys : List ℤ) → occurrences j (xs ++ ys) ≡ occurrences j xs + occurrences j ys
occurrences-append j [] ys = omega arith
occurrences-append j (x ∷ xs) ys = ground (arith, occurrences-append j xs ys)

new_checks-count :
    (m : StateManager) (ids : List ℤ) (j : ℤ)
    → to_nat (is_location_checked m j) + occurrences j (new_checks m ids).1
      ≡ to_nat (is_location_checked (new_checks m ids).0 j)
unfolding new_checks
new_checks-count m [] j = omega arith
new_checks-count m (id ∷ ids) j =
    let m' = add_checked_location m id in
    elim (Bool-cases (is_location_checked m id)) [
      | inl old ↦ rw old (new_checks-count m ids j)
      | inr new ↦
          let ih = new_checks-count m' ids j in
          let now = is_location_checked-add m id j in
          let same : eqb_ℤ id j ≡ true → is_location_checked m j ≡ false =
            λ e. subst (λ i. is_location_checked m i ≡ false) ((eqb_ℤ_iff id j).0 e) new in
          rw new (elim (Bool-cases (eqb_ℤ id j)) [
            | inl e ↦
                let now' : is_location_checked m' j ≡ true = rw e at now in
                rw (e, same e) (ground (arith, ih, now'))
            | inr e ↦
                let now' : is_location_checked m' j ≡ is_location_checked m j = rw e at now in
                rw e (ground (arith, ih, now'))
          ])
    ]

module _ {J : Type 0} where
  -- The ids that the effects hand to the server, in order.
  unfoldable pub checked_ids : List (Effect J) → List ℤ
  checked_ids [] = []
  checked_ids (checks ids ∷ es) = ids ++ checked_ids es
  checked_ids (sent target msg ∷ es) = checked_ids es
  checked_ids (broadcasted msg ∷ es) = checked_ids es
  checked_ids (scouts ids hints ∷ es) = checked_ids es

  unfoldable pub request : Router J → Request → Router J × List (Effect J)
  unfolding route_location_check route_location_checks
  request r (by_name mod_id name instance_no) =
      let done = route_location_check r mod_id name instance_no in (done.0, done.1)
  request r (by_ids ids) = route_location_checks r ids

  unfoldable pub requests : Router J → List Request → Router J × List (Effect J)
  unfolding request
  requests r [] = (r, [])
  requests r (q ∷ qs) =
      let first = request r q in let rest = requests first.0 qs in (rest.0, first.1 ++ rest.1)

  checked_ids-append :
      (es fs : List (Effect J)) → checked_ids (es ++ fs) ≡ checked_ids es ++ checked_ids fs
  unfolding checked_ids
  checked_ids-append [] fs = refl
  checked_ids-append (checks ids ∷ es) fs =
      ap (λ l. ids ++ l) (checked_ids-append es fs)
      ∙ sym (append_assoc ids (checked_ids es) (checked_ids fs))
  checked_ids-append (sent target msg ∷ es) fs = checked_ids-append es fs
  checked_ids-append (broadcasted msg ∷ es) fs = checked_ids-append es fs
  checked_ids-append (scouts ids hints ∷ es) fs = checked_ids-append es fs

handed-ids :
    (J : Type 0) (ids : List ℤ)
    → checked_ids {J = J} (if not (none_left ids) && true then checks ids ∷ [] else []) ≡ ids
unfolding checked_ids none_left
handed-ids J [] = refl
handed-ids J (id ∷ ids) = append-nil (id ∷ ids)

module _ {J : Type 0} where
  -- A router with a session and with a callback for location checks.
  abbrev pub attached : Router J → Option (Capabilities J) → StateManager → Router J
  attached r c m = record r { capabilities = c; state_manager = some m; ap_location_check = true }

  -- What the step from the session `m` to `m'` hands to the server is what becomes checked.
  abbrev Counted : StateManager → StateManager → List (Effect J) → Type 0
  Counted m m' es =
      (j : ℤ)
      → to_nat (is_location_checked m j) + occurrences j (checked_ids es)
        ≡ to_nat (is_location_checked m' j)

  -- A step keeps the router attached.
  abbrev Step :
      Router J → Option (Capabilities J) → StateManager → Router J × List (Effect J) → Type 0
  Step r c m next =
      (m' : StateManager) × (es : List (Effect J)) × (next ≡ (attached r c m', es))
      × Counted m m' es

  idle :
      (r : Router J) (c : Option (Capabilities J)) (m : StateManager)
      → Step r c m (attached r c m, [])
  unfolding checked_ids
  idle r c m = (m, [], refl, λ j. omega arith)

  by_ids-Step :
      (r : Router J) (c : Option (Capabilities J)) (m : StateManager) (ids : List ℤ)
      → Step r c m (request (attached r c m) (by_ids ids))
  unfolding request route_location_checks
  by_ids-Step r c m ids =
      let next = new_checks m ids in
      (next.0, _, refl, λ j. rw (handed-ids J next.1) (new_checks-count m ids j))

  fresh :
      (r : Router J) (c : Option (Capabilities J)) (m : StateManager) (id : ℤ)
      → is_location_checked m id ≡ false
      → Step r c m (attached r c (add_checked_location m id), checks (id ∷ []) ∷ [])
  unfolding checked_ids new_checks
  fresh r c m id new = (
    add_checked_location m id,
    checks (id ∷ []) ∷ [],
    refl,
    λ j. rw new at (new_checks-count m (id ∷ []) j),
  )

  by_name-Step :
      (r : Router J) (c : Option (Capabilities J)) (m : StateManager) (mod_id name : String)
      (instance_no : ℤ)
      → Step r c m (request (attached r c m) (by_name mod_id name instance_no))
  unfolding request route_location_check already_checked mark_checked
  by_name-Step r none m mod_id name instance_no = idle r none m
  by_name-Step r (some c) m mod_id name instance_no =
      let id = get_location_id c mod_id name instance_no in
      elim (Bool-cases (eqb_ℤ id (pos 0))) [
        | inl e ↦ rw e (idle r (some c) m)
        | inr e ↦ elim (Bool-cases (is_location_checked m id)) [
          | inl old ↦ rw (e, old) (idle r (some c) m)
          | inr new ↦ rw (e, new) (fresh r (some c) m id new)
        ]
      ]

  step :
      (r : Router J) (c : Option (Capabilities J)) (m : StateManager) (q : Request)
      → Step r c m (request (attached r c m) q)
  step r c m (by_name mod_id name instance_no) = by_name-Step r c m mod_id name instance_no
  step r c m (by_ids ids) = by_ids-Step r c m ids

  steps :
      (r : Router J) (c : Option (Capabilities J)) (m : StateManager) (qs : List Request)
      → Step r c m (requests (attached r c m) qs)
  unfolding requests
  steps r c m [] = idle r c m
  steps r c m (q ∷ qs) =
      let (m', es, one, count) = step r c m q in
      let (m'', fs, rest, counts) = steps r c m' qs in
      (
        m'',
        es ++ fs,
        rw (one, rest) refl,
        λ j. omega (
          arith,
          count j,
          counts j,
          ap (occurrences j) (checked_ids-append es fs),
          occurrences-append j (checked_ids es) (checked_ids fs),
        ),
      )

  -- Over any sequence of location checks, by name and by ids, on a router that has a session and a
  -- callback, an id is handed to the server once if it becomes checked on the way, and never if
  -- it was checked before or is not checked in the end.
  pub checks_sent_once :
      (r : Router J) (c : Option (Capabilities J)) (m : StateManager) (qs : List Request) (j : ℤ)
      → let next = requests (attached r c m) qs in
        to_nat (is_location_checked m j) + occurrences j (checked_ids next.1)
        ≡ to_nat (already_checked next.0 j)
  unfolding already_checked
  checks_sent_once r c m qs j = let (m', es, next, count) = steps r c m qs in rw next (count j)
