-- ===== src/Types/Enums.antt =====
-- The enumerations of ap_types.h and their names in text.
use apf_ue4ss.Prelude.{String, ◌≡◌, refl, if◌then◌else◌}
use apf_ue4ss.Prelude.Text.{str_eq}

pub data LifecycleState : Type 0 where
  uninitialized initialization discovery validation generation : LifecycleState
  priority_registration registration connecting syncing active resyncing : LifecycleState
  error_state : LifecycleState

pub data LogLevel : Type 0 where
  trace debug info warn error fatal : LogLevel

pub data ModType : Type 0 where
  regular priority : ModType

pub data ItemType : Type 0 where
  progression useful filler trap : ItemType

pub data ArgType : Type 0 where
  string number boolean property : ArgType

unfoldable pub lifecycle_state_to_string : LifecycleState → String
lifecycle_state_to_string uninitialized = "UNINITIALIZED"
lifecycle_state_to_string initialization = "INITIALIZATION"
lifecycle_state_to_string discovery = "DISCOVERY"
lifecycle_state_to_string validation = "VALIDATION"
lifecycle_state_to_string generation = "GENERATION"
lifecycle_state_to_string priority_registration = "PRIORITY_REGISTRATION"
lifecycle_state_to_string registration = "REGISTRATION"
lifecycle_state_to_string connecting = "CONNECTING"
lifecycle_state_to_string syncing = "SYNCING"
lifecycle_state_to_string active = "ACTIVE"
lifecycle_state_to_string resyncing = "RESYNCING"
lifecycle_state_to_string error_state = "ERROR_STATE"

unfoldable pub item_type_to_string : ItemType → String
item_type_to_string progression = "progression"
item_type_to_string useful = "useful"
item_type_to_string filler = "filler"
item_type_to_string trap = "trap"

unfoldable pub item_type_from_string : String → ItemType
item_type_from_string str =
    if str_eq str "progression"
    then progression
    else if str_eq str "useful"
    then useful
    else if str_eq str "filler"
    then filler
    else if str_eq str "trap"
    then trap
    else filler

unfoldable pub arg_type_to_string : ArgType → String
arg_type_to_string string = "string"
arg_type_to_string number = "number"
arg_type_to_string boolean = "boolean"
arg_type_to_string property = "property"

unfoldable pub arg_type_from_string : String → ArgType
arg_type_from_string str =
    if str_eq str "string"
    then string
    else if str_eq str "number"
    then number
    else if str_eq str "boolean"
    then boolean
    else if str_eq str "property"
    then property
    else string

-- Reading back the text of an item type gives the type.
pub item_type_from_string-to_string :
    (t : ItemType) → item_type_from_string (item_type_to_string t) ≡ t
unfolding item_type_from_string item_type_to_string
item_type_from_string-to_string progression = refl
item_type_from_string-to_string useful = refl
item_type_from_string-to_string filler = refl
item_type_from_string-to_string trap = refl

-- Reading back the text of an argument type gives the type.
pub arg_type_from_string-to_string : (t : ArgType) → arg_type_from_string (arg_type_to_string t) ≡ t
unfolding arg_type_from_string arg_type_to_string
arg_type_from_string-to_string string = refl
arg_type_from_string-to_string number = refl
arg_type_from_string-to_string boolean = refl
arg_type_from_string-to_string property = refl
