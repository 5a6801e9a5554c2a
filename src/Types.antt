-- ===== src/Types.antt =====
-- APFrameworkCore/include/ap_types.h: the enumerations, the structures of the manifests, of the
-- ownership records, of validation and of the messages. `J` stands for nlohmann::json.
pub mod Enums
pub mod Json
pub mod Message
use apf_ue4ss.Prelude.{ℕ, String, Bool, true, false, Option, none, some, List, []}
use apf_ue4ss.Prelude.Int.{ℤ, pos}
use Enums.{ItemType, ArgType, ModType, regular, filler}

pub record ActionArg (J : Type 0) : Type 0 where
  pub name : String
  pub type : ArgType
  pub value : J

pub record LocationDef : Type 0 where
  pub name : String
  pub amount : ℤ
  pub unique : Bool

pub record ItemDef (J : Type 0) : Type 0 where
  pub name : String
  pub type : ItemType
  pub amount : ℤ
  pub action : String
  pub args : List (ActionArg J)

pub record IncompatibilityRule : Type 0 where
  pub id : String
  pub versions : List String

pub record Manifest (J : Type 0) : Type 0 where
  pub mod_id : String
  pub name : String
  pub version : String
  pub enabled : Bool
  pub description : String
  pub incompatible : List IncompatibilityRule
  pub locations : List LocationDef
  pub items : List (ItemDef J)

pub record ModInfo : Type 0 where
  pub mod_id : String
  pub name : String
  pub version : String
  pub type : ModType
  pub is_registered : Bool
  pub has_conflict : Bool

pub record LocationOwnership : Type 0 where
  pub mod_id : String
  pub location_name : String
  pub location_id : ℤ
  pub instance_no : ℤ

pub record ItemOwnership (J : Type 0) : Type 0 where
  pub mod_id : String
  pub item_name : String
  pub item_id : ℤ
  pub type : ItemType
  pub action : String
  pub args : List (ActionArg J)
  pub max_count : ℤ

-- `started_at` is a time point of the steady clock, in milliseconds.
pub record PendingAction (J : Type 0) : Type 0 where
  pub mod_id : String
  pub item_id : ℤ
  pub item_name : String
  pub action : String
  pub resolved_args : List (ActionArg J)
  pub started_at : ℕ

pub record ActionResult : Type 0 where
  pub mod_id : String
  pub item_id : ℤ
  pub item_name : String
  pub success : Bool
  pub error : String

pub record Conflict : Type 0 where
  pub capability_name : String
  pub mod_id_1 : String
  pub mod_id_2 : String
  pub description : String

pub record ValidationResult : Type 0 where
  pub valid : Bool
  pub conflicts : List Conflict
  pub warnings : List String

-- `checked_locations` is a set and `item_progression_counts` a map; `last_active` is in ticks of the system clock.
pub record SessionState : Type 0 where
  pub version : String
  pub checksum : String
  pub slot_name : String
  pub game_name : String
  pub received_item_index : ℤ
  pub checked_locations : List ℤ
  pub item_progression_counts : List (ℤ × ℤ)
  pub ap_server : String
  pub ap_port : ℤ
  pub last_active : ℤ

pub record CapabilitiesConfigLocation : Type 0 where
  pub id : ℤ
  pub name : String
  pub mod_id : String
  pub instance_no : ℤ

pub record CapabilitiesConfigItem : Type 0 where
  pub id : ℤ
  pub name : String
  pub type : String
  pub mod_id : String
  pub count : ℤ

pub record CapabilitiesConfig : Type 0 where
  pub version : String
  pub game : String
  pub slot_name : String
  pub checksum : String
  pub id_base : ℤ
  pub generated_at : String
  pub mods : List ModInfo
  pub locations : List CapabilitiesConfigLocation
  pub items : List CapabilitiesConfigItem

pub record TimeoutConfig : Type 0 where
  pub priority_registration_ms : ℤ
  pub registration_ms : ℤ
  pub connection_ms : ℤ
  pub ipc_message_ms : ℤ
  pub action_execution_ms : ℤ

pub record ApServerConfig : Type 0 where
  pub server : String
  pub port : ℤ
  pub slot_name : String
  pub password : String
  pub auto_reconnect : Bool

-- A `SessionState` with the initializers of its members.
abbrev pub new_session : SessionState
new_session = record {
  version = "";
  checksum = "";
  slot_name = "";
  game_name = "";
  received_item_index = pos 0;
  checked_locations = [];
  item_progression_counts = [];
  ap_server = "";
  ap_port = pos 38281;
  last_active = pos 0;
}
