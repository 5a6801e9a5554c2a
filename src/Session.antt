-- ===== src/Session.antt =====
-- APFrameworkCore/src/ap_state_manager.cpp, class `APStateManager::Impl`. Each method runs whole
-- under the object's mutex. The session file enters as what reading and parsing it gives.
pub mod Counts
pub mod File
use apf_ue4ss.Prelude.{
  ℕ, String, Bool, true, false, Option, none, some, List, [], ◌∷◌, length, if◌then◌else◌,
}
use apf_ue4ss.Prelude.Int.{ℤ, pos, ◌+ℤ◌}
use apf_ue4ss.Prelude.Text.{str_eq, is_empty}
use apf_ue4ss.Prelude.Dict.{int_eq, lookup, put, contains, add}
use apf_ue4ss.Types.{SessionState, new_session}

pub record StateManager : Type 0 where
  pub state : SessionState
  pub loaded : Bool

abbrev pub new : StateManager
new = record { state = new_session; loaded = false }

unfoldable pub clear : StateManager → StateManager
clear s = record s { state = new_session; loaded = false }

unfoldable pub set_state : StateManager → SessionState → StateManager
set_state s state = record s { state = state; loaded = true }

unfoldable pub set_received_item_index : StateManager → ℤ → StateManager
set_received_item_index s index = record s {
  state = record s.state { received_item_index = index };
}

unfoldable pub increment_received_item_index : StateManager → StateManager × ℤ
increment_received_item_index s =
    let index = s.state.received_item_index +ℤ pos 1 in
    (record s { state = record s.state { received_item_index = index } }, index)

unfoldable pub add_checked_location : StateManager → ℤ → StateManager
add_checked_location s id = record s {
  state = record s.state { checked_locations = add id s.state.checked_locations };
}

unfoldable pub is_location_checked : StateManager → ℤ → Bool
is_location_checked s id = contains id s.state.checked_locations

unfoldable pub set_checked_locations : StateManager → List ℤ → StateManager
set_checked_locations s ids = record s { state = record s.state { checked_locations = ids } }

unfoldable pub get_checked_location_count : StateManager → ℕ
get_checked_location_count s = length s.state.checked_locations

unfoldable pub set_item_progression_count : StateManager → ℤ → ℤ → StateManager
set_item_progression_count s id count = record s {
  state = record s.state { item_progression_counts = put id count s.state.item_progression_counts };
}

unfoldable pub get_item_progression_count : StateManager → ℤ → ℤ
get_item_progression_count s id = elim (lookup id s.state.item_progression_counts) [
  | none ↦ pos 0
  | some count ↦ count
]

-- `++state_.item_progression_counts[item_id]`, where a missing key is entered with 0 first.
unfoldable pub increment_item_progression_count : StateManager → ℤ → StateManager × ℤ
unfolding get_item_progression_count set_item_progression_count
increment_item_progression_count s id =
    let count = get_item_progression_count s id +ℤ pos 1 in
    (set_item_progression_count s id count, count)

unfoldable pub set_checksum : StateManager → String → StateManager
set_checksum s checksum = record s { state = record s.state { checksum = checksum } }

unfoldable pub validate_checksum : StateManager → String → Bool
validate_checksum s current =
    if is_empty s.state.checksum then true else str_eq s.state.checksum current

unfoldable pub set_slot_name : StateManager → String → StateManager
set_slot_name s name = record s { state = record s.state { slot_name = name } }

unfoldable pub set_game_name : StateManager → String → StateManager
set_game_name s name = record s { state = record s.state { game_name = name } }

unfoldable pub set_server_info : StateManager → String → ℤ → StateManager
set_server_info s server port = record s {
  state = record s.state { ap_server = server; ap_port = port };
}

-- `now` is the system clock, in its own ticks.
unfoldable pub touch : StateManager → ℕ → StateManager
touch s now = record s { state = record s.state { last_active = pos now } }
