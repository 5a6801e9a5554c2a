-- ===== src/Router/Items.antt =====
-- Item receipts: the message to the owner of the item, and the arguments of its action.
use apf_ue4ss.Prelude.{
  ℕ, ◌+◌, String, true, ◌≡◌, ◌≢◌, refl, none, some, List, [], ◌∷◌, length, map, get_elem?,
  if◌then◌else◌, arith, eq_iff,
}
use apf_ue4ss.Prelude.Int.{ℤ, pos, ◌+ℤ◌}
use apf_ue4ss.Prelude.Text.{is_empty}
use apf_ue4ss.Types.{ActionArg, ItemOwnership, PendingAction}
use apf_ue4ss.Types.Json.{JsonOps, JsonLaws}
use apf_ue4ss.Capabilities.{Capabilities, assign_ids}
use apf_ue4ss.Capabilities.Ids.{item_ids}
use apf_ue4ss.Router.{
  Router, sent, resolve_value, resolve_argument, resolve_arguments, execute_action,
  route_item_receipt, progression_count,
}

module _ {J : Type 0} ⦃ops : JsonOps J⦄ where
  -- The action that awaits its result after the receipt of an item.
  abbrev pub pending_of : Router J → ℕ → ItemOwnership J → String → PendingAction J
  pending_of r now item item_name = record {
    mod_id = item.mod_id;
    item_id = item.item_id;
    item_name = item_name;
    action = item.action;
    resolved_args = resolve_arguments r item;
    started_at = now;
  }

  -- With a callback for messages, after `assign_ids base` on capabilities with n locations, the receipt of the id `base + n + k`
  -- sends one message, which tells the mod of the k-th item to execute its action with its
  -- resolved arguments, and the router returns that action as pending; if the action is empty,
  -- nothing is sent and nothing is pending.
  pub route_item_receipt-assign_ids :
      (r : Router J) (s : Capabilities J) (base : ℤ) (k : ℕ) (item : ItemOwnership J) (now : ℕ)
      (item_name sender : String)
      → get_elem? s.items k ≡ some item
      → let id = base +ℤ pos (length s.locations + k) in
        let owned = record item { item_id = id } in
        let r' = record r { capabilities = some (assign_ids s base); ipc_send = true } in
        route_item_receipt r' now id item_name sender ≡ (
          if is_empty item.action then ([], none) else (
            sent item.mod_id (execute_action owned id item_name sender (resolve_arguments r' owned))
                ∷ [],
            some (pending_of r' now owned item_name),
          ))
  unfolding route_item_receipt
  route_item_receipt-assign_ids r s base k item now item_name sender at =
      rw (route_item_receipt, (item_ids s base k item at).0) refl

  map-resolved :
      {B : Type 0} (r : Router J) (item : ItemOwnership J) (f g : ActionArg J → B)
      → ((arg : ActionArg J) → f (resolve_argument r item arg) ≡ g arg)
      → (args : List (ActionArg J)) → map f (map (resolve_argument r item) args) ≡ map g args
  map-resolved r item f g same [] = refl
  map-resolved r item f g same (arg ∷ args) = rw (same arg, map-resolved r item f g same args) refl

  -- Resolving keeps the names and the types of the arguments and their order. An argument whose
  -- text is a placeholder becomes the id of the item, its name or its progression count; a number
  -- and any other text stay as they are.
  pub resolve_arguments_lem :
      JsonLaws ops
      → (r : Router J) (item : ItemOwnership J)
      → (map (λ arg. arg.name) (resolve_arguments r item) ≡ map (λ arg. arg.name) item.args)
        × (map (λ arg. arg.type) (resolve_arguments r item) ≡ map (λ arg. arg.type) item.args)
        × (map (λ arg. arg.value) (resolve_arguments r item)
            ≡ map (λ arg. resolve_value r item arg.value) item.args)
        × (resolve_value r item (ops.text "<GET_ITEM_ID>") ≡ ops.integer item.item_id)
        × (resolve_value r item (ops.text "<GET_ITEM_NAME>") ≡ ops.text item.item_name)
        × (resolve_value r item (ops.text "<GET_PROGRESSION_COUNT>")
            ≡ ops.integer (progression_count r item.item_id))
        × ((n : ℤ) → resolve_value r item (ops.integer n) ≡ ops.integer n)
        × ((s : String)
            → s ≢ "<GET_ITEM_ID>"
            → s ≢ "<GET_ITEM_NAME>"
            → s ≢ "<GET_PROGRESSION_COUNT>"
            → resolve_value r item (ops.text s) ≡ ops.text s)
  unfolding resolve_arguments resolve_argument resolve_value
  resolve_arguments_lem laws r item = (
    map-resolved r item (λ arg. arg.name) (λ arg. arg.name) (λ arg. refl) item.args,
    map-resolved r item (λ arg. arg.type) (λ arg. arg.type) (λ arg. refl) item.args,
    map-resolved r item (λ arg. arg.value) (λ arg. resolve_value r item arg.value) (λ arg. refl)
        item.args,
    rw (resolve_value, laws.as_text-text "<GET_ITEM_ID>") refl,
    rw (resolve_value, laws.as_text-text "<GET_ITEM_NAME>") refl,
    rw (resolve_value, laws.as_text-text "<GET_PROGRESSION_COUNT>") refl,
    λ n. rw (resolve_value, laws.as_text-integer n) refl,
    λ s h k l.
        rw (resolve_value, laws.as_text-text s)
          (ground (
            arith,
            eq_iff s "<GET_ITEM_ID>",
            eq_iff s "<GET_ITEM_NAME>",
            eq_iff s "<GET_PROGRESSION_COUNT>",
          )),
  )
