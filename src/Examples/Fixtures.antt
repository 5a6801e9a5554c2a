-- ===== src/Examples/Fixtures.antt =====
-- A JSON document, a mod with two locations and an item, and the states built from them.
use apf_ue4ss.Prelude.{
  ℕ, String, Bool, true, false, ◌≡◌, refl, ap, Option, none, some, List, [], ◌∷◌,
}
use apf_ue4ss.Prelude.Int.{ℤ, pos}
use apf_ue4ss.Prelude.Dict.{string_eq, lookup}
use apf_ue4ss.Types.{Manifest, LocationDef, ItemDef}
use apf_ue4ss.Types.Enums.{progression, string}
use apf_ue4ss.Types.Json.{JsonOps, JsonLaws}
use apf_ue4ss.Capabilities.{
  Capabilities, add_manifest, empty, instances, location_entries, item_entry,
}
use apf_ue4ss.Router.{Router}
use apf_ue4ss.Session.{new}
use apf_ue4ss.Session.File.{json_error}
use apf_ue4ss.Registry.{Registry}
use apf_ue4ss.Manager.{Config, Manager, Surroundings}
use apf_ue4ss.Types.Enums.{priority_registration}

mutual
  pub data Doc : Type 0 where
    d_null : Doc
    d_boolean : Bool → Doc
    d_integer : ℤ → Doc
    d_text : String → Doc
    d_array : Docs → Doc
    d_object : Members → Doc

  pub data Docs : Type 0 where
    d_end : Docs
    d_item : Doc → Docs → Docs

  pub data Members : Type 0 where
    d_empty : Members
    d_member : String → Doc → Members → Members

abbrev pub docs : List Doc → Docs
docs [] = d_end
docs (d ∷ ds) = d_item d (docs ds)

abbrev doc_list : Docs → List Doc
doc_list d_end = []
doc_list (d_item d ds) = d ∷ doc_list ds

abbrev pub members : List (String × Doc) → Members
members [] = d_empty
members ((key, d) ∷ fields) = d_member key d (members fields)

abbrev pub member_list : Members → List (String × Doc)
member_list d_empty = []
member_list (d_member key d fields) = (key, d) ∷ member_list fields

doc_list-docs : (ds : List Doc) → doc_list (docs ds) ≡ ds
doc_list-docs [] = refl
doc_list-docs (d ∷ ds) = ap (λ (l : List Doc). d ∷ l) (doc_list-docs ds)

pub member_list-members : (fields : List (String × Doc)) → member_list (members fields) ≡ fields
member_list-members [] = refl
member_list-members ((key, d) ∷ fields) =
    ap (λ (l : List (String × Doc)). (key, d) ∷ l) (member_list-members fields)

abbrev read_text : Doc → Option String
read_text (d_text s) = some s
read_text _ = none

abbrev read_integer : Doc → Option ℤ
read_integer (d_integer n) = some n
read_integer _ = none

abbrev read_boolean : Doc → Option Bool
read_boolean (d_boolean b) = some b
read_boolean _ = none

abbrev read_array : Doc → Option (List Doc)
read_array (d_array ds) = some (doc_list ds)
read_array _ = none

abbrev find_member : Doc → String → Option Doc
find_member (d_object fields) key = lookup key (member_list fields)
find_member _ key = none

abbrev is_members : Doc → Bool
is_members (d_object fields) = true
is_members _ = false

instance abbrev pub doc_ops : JsonOps Doc
doc_ops = record {
  null = d_null;
  object = λ fields. d_object (members fields);
  array = λ ds. d_array (docs ds);
  text = d_text;
  integer = d_integer;
  boolean = d_boolean;
  is_object = is_members;
  member = find_member;
  as_text = read_text;
  as_integer = read_integer;
  as_boolean = read_boolean;
  as_array = read_array;
}

pub doc_laws : JsonLaws doc_ops
doc_laws = record {
  is_object-object = λ fields. refl;
  member-object = λ fields key. ap (lookup key) (member_list-members fields);
  as_text-text = λ s. refl;
  as_text-integer = λ n. refl;
  as_integer-integer = λ n. refl;
  as_boolean-boolean = λ b. refl;
  as_array-text = λ s. refl;
  as_array-array = λ ds. ap (λ (l : List Doc). some l) (doc_list-docs ds);
}

abbrev pub chest : LocationDef
chest = record { name = "Chest"; amount = pos 2; unique = true }

abbrev pub sword : ItemDef Doc
sword = record {
  name = "Sword";
  type = progression;
  amount = pos 1;
  action = "give_sword";
  args = record { name = "id"; type = string; value = d_text "<GET_ITEM_ID>" } ∷ [];
}

abbrev pub ruins : Manifest Doc
ruins = record {
  mod_id = "ruins.mod";
  name = "Ruins";
  version = "1.0.0";
  enabled = true;
  description = "";
  incompatible = [];
  locations = chest ∷ [];
  items = sword ∷ [];
}

-- A second mod, with neither locations nor items.
abbrev pub hub : Manifest Doc
hub = record ruins { mod_id = "archipelago.game.hub"; name = "Hub"; locations = []; items = [] }

-- The capabilities of the two mods.
abbrev pub world : Capabilities Doc
unfolding add_manifest location_entries instances item_entry
world = add_manifest (add_manifest empty ruins) hub

abbrev pub mods : Registry Doc
mods = record {
  manifests = ("ruins.mod", ruins) ∷ ("archipelago.game.hub", hub) ∷ [];
  registered = [];
}

abbrev pub settings : Config
settings = record {
  game_name = "Ruins";
  id_base = pos 100;
  timeouts = record {
    priority_registration_ms = pos 30000;
    registration_ms = pos 60000;
    connection_ms = pos 30000;
    ipc_message_ms = pos 5000;
    action_execution_ms = pos 5000;
  };
  ap_server = record {
    server = "localhost";
    port = pos 38281;
    slot_name = "Player";
    password = "";
    auto_reconnect = true;
  };
}

abbrev pub bare_router : Router Doc
bare_router = record {
  capabilities = some world;
  state_manager = some new;
  ipc_send = true;
  ipc_broadcast = true;
  ap_location_check = true;
  ap_location_scout = true;
  pending_scouts = [];
}

-- The framework while it waits for priority clients.
abbrev pub waiting : Manager Doc
waiting = record {
  current_state = priority_registration;
  state_entered_at = 1000;
  config = settings;
  registry = mods;
  capabilities = world;
  session = new;
  pending_scouts = [];
  state_loaded = false;
  reconnect_attempted = false;
  last_save = none;
}

abbrev pub at : ℕ → Surroundings
at now = record { now = now; wall = 0; slot_connected = true; client_count = 1; file = json_error }
