-- ===== src/Router/Scouts.antt =====
-- Location scouts and the progression counts of the actions that the mods report.
use apf_ue4ss.Prelude.{
  ℕ, suc, ◌+◌, String, Bool, true, false, not, ◌&&◌, ◌≡◌, ◌≢◌, refl, sym, ◌∙◌, ap, Option, some,
  List, [], ◌∷◌, fold, arith, if◌then◌else◌, Bool-cases, inl, inr, All,
}
use apf_ue4ss.Prelude.Int.{ℤ, pos, ◌+ℤ◌, eqb_ℤ, eqb_ℤ_iff, +ℤ-zero, +ℤ-pos}
use apf_ue4ss.Prelude.Dict.{int_eq, lookup, put, lookup-put, contains}
use apf_ue4ss.Types.{ActionResult}
use apf_ue4ss.Capabilities.{Capabilities, get_location_id}
use apf_ue4ss.Session.{StateManager, get_item_progression_count, increment_item_progression_count}
use apf_ue4ss.Session.Counts.{get-increment}
use apf_ue4ss.Router.{
  Router, scout_ids, await_scouts, none_left, route_location_scouts, handle_action_result,
  progression_count,
}
use apf_ue4ss.Router.Checks.{attached}

lookup-await :
    (mod_id : String) (ids : List ℤ) (pending : List (ℤ × String)) (j : ℤ)
    → lookup j (await_scouts mod_id ids pending)
      ≡ (if contains j ids then some mod_id else lookup j pending)
unfolding await_scouts contains
lookup-await mod_id [] pending j = refl
lookup-await mod_id (id ∷ ids) pending j =
    let ih = lookup-await mod_id ids (put id mod_id pending) j in
    ground (arith, ih, lookup-put id j mod_id pending, eqb_ℤ_iff id j)

none_left-contains : (ids : List ℤ) (j : ℤ) → none_left ids ≡ true → contains j ids ≡ false
unfolding none_left contains
none_left-contains [] j h = refl
none_left-contains (id ∷ ids) j h = absurd (ground (arith, h))

-- The successful reports of an action for the item `j`.
abbrev pub successes : ℤ → List ActionResult → ℕ
successes j [] = 0
successes j (result ∷ results) =
    if (result.success && not (eqb_ℤ result.item_id (pos 0))) && eqb_ℤ result.item_id j
    then suc (successes j results)
    else successes j results

successes-cons :
    (j : ℤ) (result : ActionResult) (results : List ActionResult)
    → successes j (result ∷ results) ≡ successes j (result ∷ []) + successes j results
successes-cons j result results = ground arith

module _ {J : Type 0} where
  scout_ids-nonzero :
      (c : Capabilities J) (mod_id : String) (names : List String)
      → All (λ id. id ≢ pos 0) (scout_ids c mod_id names)
  unfolding scout_ids
  scout_ids-nonzero c mod_id [] = tt
  scout_ids-nonzero c mod_id (name ∷ names) =
      let id = get_location_id c mod_id name (pos 1) in
      elim (Bool-cases (eqb_ℤ id (pos 0))) [
        | inl e ↦ rw e (scout_ids-nonzero c mod_id names)
        | inr e ↦
            rw e (
              (λ h. ground (arith, e, (eqb_ℤ_iff id (pos 0)).1 h)),
              scout_ids-nonzero c mod_id names,
            )
      ]

  -- With a callback for scouts, the ids that `route_location_scouts` returns are known ones (not
  -- 0); afterwards the mod awaits the results of exactly these ids and all others are awaited as
  -- before.
  pub route_location_scouts_lem :
      (r : Router J) (c : Capabilities J) (mod_id : String) (names : List String) (hints : Bool)
      (j : ℤ)
      → let next =
          route_location_scouts
            (record r { capabilities = some c; ap_location_scout = true })
            mod_id
            names
            hints in
        All (λ id. id ≢ pos 0) next.2
        × (lookup j next.0.pending_scouts
            ≡ (if contains j next.2 then some mod_id else lookup j r.pending_scouts))
  unfolding route_location_scouts
  route_location_scouts_lem r c mod_id names hints j =
      let ids = scout_ids c mod_id names in
      let known = scout_ids-nonzero c mod_id names in
      elim (Bool-cases (none_left ids)) [
        | inl e ↦ rw e (known, rw (none_left-contains ids j e) refl)
        | inr e ↦ rw e (known, lookup-await mod_id ids r.pending_scouts j)
      ]

  count-result :
      (r : Router J) (c : Option (Capabilities J)) (m : StateManager) (result : ActionResult)
      → (m' : StateManager) × (handle_action_result (attached r c m) result ≡ attached r c m')
        × ((j : ℤ)
            → get_item_progression_count m' j
              ≡ get_item_progression_count m j +ℤ pos (successes j (result ∷ [])))
  unfolding handle_action_result
  count-result r c m result =
      let id = result.item_id in
      elim (Bool-cases (result.success && not (eqb_ℤ id (pos 0)))) [
        | inl e ↦ (
          (increment_item_progression_count m id).0,
          rw e refl,
          λ j. elim (Bool-cases (eqb_ℤ id j)) [
            | inl same ↦ rw (e, same) (rw same at (get-increment m id j))
            | inr other ↦ rw (e, other) (rw other at (get-increment m id j) ∙ sym (+ℤ-zero _))
          ],
        )
        | inr e ↦ (m, rw e refl, λ j. rw e (sym (+ℤ-zero _)))
      ]

  -- After the reports of any sequence of actions, on a router with a session, the progression
  -- count of an item has grown by the number of successful reports for it; failed reports and
  -- those with item id 0 count for nothing.
  pub progression_count-results :
      (r : Router J) (c : Option (Capabilities J)) (m : StateManager) (results : List ActionResult)
      (j : ℤ)
      → progression_count (fold handle_action_result (attached r c m) results) j
        ≡ get_item_progression_count m j +ℤ pos (successes j results)
  unfolding progression_count
  progression_count-results r c m [] j = sym (+ℤ-zero _)
  progression_count-results r c m (result ∷ results) j =
      let (m', next, one) = count-result r c m result in
      rw (next, successes-cons j result results)
        (progression_count-results r c m' results j
          ∙ ap (λ n. n +ℤ pos (successes j results)) (one j)
          ∙ +ℤ-pos (get_item_progression_count m j) (successes j (result ∷ []))
              (successes j results))
