-- ===== src/Examples/Router.antt =====
-- The router at concrete inputs.
use apf_ue4ss.Prelude.{◌+◌, true, ◌≡◌, some, List, [], ◌∷◌}
use apf_ue4ss.Prelude.Int.{ℤ, pos}
use apf_ue4ss.Prelude.Dict.{int_eq}
use apf_ue4ss.Types.{ActionResult, ItemOwnership}
use apf_ue4ss.Types.Enums.{progression}
use apf_ue4ss.Capabilities.{assign_ids}
use apf_ue4ss.Session.{new, is_location_checked}
use apf_ue4ss.Session.Counts.{occurrences}
use apf_ue4ss.Router.{Effect, Router, route_location_scouts, already_checked}
use apf_ue4ss.Router.Checks.{
  to_nat, by_name, by_ids, checked_ids, requests, attached, checks_sent_once,
}
use apf_ue4ss.Examples.Fixtures.{Doc, doc_ops, sword, world, bare_router}

checks_sent_once_example :
    to_nat (is_location_checked new (pos 101))
      + occurrences (pos 101) (
          checked_ids
            (requests
              (attached bare_router (some (assign_ids world (pos 100))) new)
              (by_name "ruins.mod" "Chest" (pos 2) ∷ by_ids (pos 101 ∷ pos 100 ∷ []) ∷ [])).1)
    ≡ to_nat (
        already_checked
          (requests
            (attached bare_router (some (assign_ids world (pos 100))) new)
            (by_name "ruins.mod" "Chest" (pos 2) ∷ by_ids (pos 101 ∷ pos 100 ∷ []) ∷ [])).0
          (pos 101))
checks_sent_once_example =
    checks_sent_once bare_router (some (assign_ids world (pos 100))) new
      (by_name "ruins.mod" "Chest" (pos 2) ∷ by_ids (pos 101 ∷ pos 100 ∷ []) ∷ []) (pos 101)

abbrev owned_sword : ItemOwnership Doc
owned_sword = record {
  mod_id = "ruins.mod";
  item_name = "Sword";
  item_id = pos 0;
  type = progression;
  action = "give_sword";
  args = sword.args;
  max_count = pos 1;
}

abbrev ready : Router Doc
ready = record bare_router { capabilities = some (assign_ids world (pos 100)); ipc_send = true }

abbrev scouted : Router Doc × List (Effect Doc) × List ℤ
scouted =
    route_location_scouts
      (record bare_router {
        capabilities = some (assign_ids world (pos 100));
        ap_location_scout = true;
      })
      "ruins.mod" ("Chest" ∷ "Cave" ∷ []) true

abbrev success : ActionResult
success = record {
  mod_id = "ruins.mod";
  item_id = pos 102;
  item_name = "Sword";
  success = true;
  error = "";
}
