-- ===== src/Session/File.antt =====
-- The session file: `SessionState::to_json` and `from_json` of ap_types.h, `save_state` and
-- `load_state` of ap_state_manager.cpp.
pub mod Kept
pub mod Laws
use apf_ue4ss.Prelude.{
  String, Bool, true, false, Option, none, some, List, [], ◌∷◌, map, if◌then◌else◌,
}
use apf_ue4ss.Prelude.Int.{ℤ, pos}
use apf_ue4ss.Prelude.Text.{to_string}
use apf_ue4ss.Prelude.Dict.{int_eq, put, add}
use apf_ue4ss.Types.{SessionState}
use apf_ue4ss.Types.Json.{JsonOps, value_text, value_integer, array_at}
use apf_ue4ss.Session.{StateManager}

-- What the code uses besides: the pairs of an object (`items()`, none of what is no object), and
-- `std::stoll`, none where it throws std::invalid_argument or std::out_of_range; `to_time_t` and
-- `from_time_t` of the system clock, from its ticks to whole seconds and back.
pub record FileOps (J : Type 0) : Type 0 where
  pub entries : J → List (String × J)
  pub stoll : String → Option ℤ
  pub to_time_t : ℤ → ℤ
  pub from_time_t : ℤ → ℤ

-- A value, an exception of nlohmann::json, or one of `std::stoll`.
pub data Reading (A : Type 0) : Type 0 where
  good : A → Reading A
  json_error stoll_error : Reading A

infixl 20 ◌>>=◌
abbrev pub ◌>>=◌ : {A B : Type 0} → Reading A → (A → Reading B) → Reading B
good a >>= f = f a
json_error >>= f = json_error
stoll_error >>= f = stoll_error

-- A read that throws a JSON exception where it is none, and one that throws one of `std::stoll`.
abbrev pub json : {A : Type 0} → Option A → Reading A
json none = json_error
json (some a) = good a

abbrev pub parsed : {A : Type 0} → Option A → Reading A
parsed none = stoll_error
parsed (some a) = good a

-- How `load_state` ends: it returns, or an exception that it does not catch leaves it.
pub data Loading : Type 0 where
  returned : StateManager → Bool → Loading
  escaped : StateManager → Loading

-- The rest of the `try` and the `catch (const nlohmann::json::exception&)`.
unfoldable pub after_read : StateManager → Reading SessionState → Loading
after_read s (good state) = returned (record s { state = state; loaded = true }) true
after_read s json_error = returned s false
after_read s stoll_error = escaped s

module _ {J : Type 0} ⦃ops : JsonOps J⦄ where
  abbrev pub count_field : ℤ × ℤ → String × J
  count_field (id, count) = (to_string id, ops.integer count)

module _ {J : Type 0} ⦃ops : JsonOps J⦄ (file : FileOps J) where
  unfoldable pub to_json : SessionState → J
  unfolding to_string
  to_json s = ops.object (
      ("version", ops.text s.version)
      ∷ ("checksum", ops.text s.checksum)
      ∷ ("slot_name", ops.text s.slot_name)
      ∷ ("game_name", ops.text s.game_name)
      ∷ ("received_item_index", ops.integer s.received_item_index)
      ∷ ("checked_locations", ops.array (map (λ id. ops.integer id) s.checked_locations))
      ∷ ("item_progression_counts", ops.object (map count_field s.item_progression_counts))
      ∷ ("ap_server", ops.text s.ap_server)
      ∷ ("ap_port", ops.integer s.ap_port)
      ∷ ("last_active", ops.integer (file.to_time_t s.last_active))
      ∷ [])

module _ {J : Type 0} ⦃ops : JsonOps J⦄ where
  -- `for (loc : j["checked_locations"]) checked_locations.insert(loc.get<int64_t>())`
  unfoldable pub read_locations : List J → List ℤ → Reading (List ℤ)
  read_locations [] ids = good ids
  read_locations (loc ∷ locs) ids = do
    id ← json (ops.as_integer loc)
    read_locations locs (add id ids)

module _ {J : Type 0} ⦃ops : JsonOps J⦄ (file : FileOps J) where
  -- `item_progression_counts[std::stoll(key)] = val.get<int>()`, for each pair of the object: the
  -- right side is evaluated first.
  unfoldable pub read_counts : List (String × J) → List (ℤ × ℤ) → Reading (List (ℤ × ℤ))
  read_counts [] counts = good counts
  read_counts ((key, val) ∷ fields) counts = do
    count ← json (ops.as_integer val)
    id ← parsed (file.stoll key)
    read_counts fields (put id count counts)

  -- `j.contains("item_progression_counts") && j[...].is_object()`, with its pairs.
  unfoldable pub count_entries : J → List (String × J)
  count_entries j = elim (ops.member j "item_progression_counts") [
    | none ↦ []
    | some v ↦ if ops.is_object v then file.entries v else []
  ]

  -- The time point, or the initial one.
  unfoldable pub read_last_active : J → Reading ℤ
  read_last_active j = elim (ops.member j "last_active") [
    | none ↦ good (pos 0)
    | some v ↦ do t ← json (ops.as_integer v); good (file.from_time_t t)
  ]

  unfoldable pub from_json : J → Reading SessionState
  unfolding value_text value_integer array_at read_locations read_counts count_entries
      read_last_active
  from_json j = do
    version ← json (value_text j "version" "")
    checksum ← json (value_text j "checksum" "")
    slot_name ← json (value_text j "slot_name" "")
    game_name ← json (value_text j "game_name" "")
    index ← json (value_integer j "received_item_index" (pos 0))
    locations ← read_locations (array_at j "checked_locations") []
    counts ← read_counts (count_entries j) []
    ap_server ← json (value_text j "ap_server" "")
    ap_port ← json (value_integer j "ap_port" (pos 38281))
    last_active ← read_last_active j
    good (record {
      version = version;
      checksum = checksum;
      slot_name = slot_name;
      game_name = game_name;
      received_item_index = index;
      checked_locations = locations;
      item_progression_counts = counts;
      ap_server = ap_server;
      ap_port = ap_port;
      last_active = last_active;
    })

  -- `load_state`: the file is none if it is missing or empty, and holds none if it is no JSON.
  unfoldable pub load_file : StateManager → Option (Option J) → Loading
  unfolding from_json after_read
  load_file s none = returned s false
  load_file s (some none) = returned s false
  load_file s (some (some j)) = after_read s (from_json j)

  -- `save_state`: the document written, whether `write_file` succeeds, and the answer.
  unfoldable pub save_state : StateManager → (J → Bool) → J × Bool
  unfolding to_json
  save_state s writes = (to_json file s.state, writes (to_json file s.state))
