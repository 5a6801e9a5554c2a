-- ===== src/Polling.antt =====
-- APFrameworkCore/src/ap_polling_thread.cpp: the life of the polling thread and the events of
-- message_queues.h that the callbacks of the AP client queue for the main thread.
pub mod Delivery
use Prim.Native.String.{◌++◌ as append_text}
use apf_ue4ss.Prelude.{
  String, Bool, true, false, not, ◌||◌, Option, none, some, List, [], ◌∷◌, ◌++◌, if◌then◌else◌,
  ◌>>=◌,
}
use apf_ue4ss.Prelude.Int.{ℤ, leb_ℤ, eqb_ℤ}
use apf_ue4ss.Types.Enums.{LifecycleState, connecting, syncing, active, error_state}
use apf_ue4ss.Types.Json.{JsonOps}
use apf_ue4ss.Router.{ScoutResult}
use apf_ue4ss.Queue.{ThreadSafeQueue, push, pop_all}

pub record ItemReceivedEvent : Type 0 where
  pub item_id : ℤ
  pub item_name : String
  pub sender : String
  pub location_id : ℤ
  pub is_self : Bool

pub record LocationScoutEvent : Type 0 where
  pub location_id : ℤ
  pub location_name : String
  pub item_id : ℤ
  pub item_name : String
  pub player_name : String

pub record LifecycleEvent : Type 0 where
  pub old_state : LifecycleState
  pub new_state : LifecycleState
  pub message : String

pub record ErrorEvent : Type 0 where
  pub code : String
  pub message : String
  pub details : String

pub record ApMessageEvent (J : Type 0) : Type 0 where
  pub type : String
  pub message : String
  pub data_json : J

pub data QueuedEvent (J : Type 0) : Type 0 where
  item : ItemReceivedEvent → QueuedEvent J
  scout : LocationScoutEvent → QueuedEvent J
  lifecycle : LifecycleEvent → QueuedEvent J
  failure : ErrorEvent → QueuedEvent J
  ap_message : ApMessageEvent J → QueuedEvent J

-- `ReceivedItem` of ap_client.h.
pub record ReceivedItem : Type 0 where
  pub item_id : ℤ
  pub location_id : ℤ
  pub player_id : ℤ
  pub item_name : String
  pub player_name : String
  pub index : ℤ

-- The callbacks of the AP client, with what they get.
pub data Callback (J : Type 0) : Type 0 where
  item_received : ReceivedItem → Callback J
  location_scouted : List ScoutResult → Callback J
  slot_connected : String → Callback J
  slot_refused : List String → Callback J
  disconnected : Callback J
  printed : String → Callback J
  printed_json : String → J → Callback J
  bounced : J → Callback J

-- `joinable` is whether `thread_` stands for a thread that has not been joined.
pub record PollingThread (J : Type 0) : Type 0 where
  pub running : Bool
  pub stop_requested : Bool
  pub joinable : Bool
  pub interval_ms : ℤ
  pub event_queue : ThreadSafeQueue (QueuedEvent J)

-- A call returns, or the assignment to a joinable std::thread ends the process.
pub data Started (J : Type 0) : Type 0 where
  answered : PollingThread J → Bool → Started J
  terminated : Started J

-- `errors[0]` and the others behind "; ".
unfoldable pub join_rest : String → List String → String
join_rest details [] = details
join_rest details (e ∷ errors) = join_rest (append_text details (append_text "; " e)) errors

unfoldable pub joined : List String → String
unfolding join_rest
joined [] = ""
joined (e ∷ errors) = join_rest e errors

module _ {J : Type 0} where
  unfoldable pub start : PollingThread J → Bool → ℤ → Started J
  start p has_client interval_ms =
      if p.running
      then answered p false
      else if not has_client
      then answered p false
      else if p.joinable
      then terminated
      else answered
          (record p {
            running = true;
            stop_requested = false;
            joinable = true;
            interval_ms = interval_ms;
          })
          true

  -- `elapsed_ms` is the time at the first check. `running_` is false at the end of the first round,
  -- so that the thread is joined there, however long that takes.
  unfoldable pub stop : PollingThread J → ℤ → ℤ → PollingThread J × Bool
  stop p timeout_ms elapsed_ms =
      let asked = record p { running = false; stop_requested = true } in
      if not p.running
      then (p, true)
      else if not p.joinable
      then (asked, true)
      else if leb_ℤ timeout_ms elapsed_ms
      then (asked, false)
      else (record asked { joinable = false }, true)

  -- `process_events` and `get_events`: all events, in order.
  unfoldable pub get_events : PollingThread J → PollingThread J × List (QueuedEvent J)
  unfolding pop_all
  get_events p =
      let (rest, events) = pop_all p.event_queue in (record p { event_queue = rest }, events)

  unfoldable pub push_all :
      ThreadSafeQueue (QueuedEvent J) → List (QueuedEvent J) → ThreadSafeQueue (QueuedEvent J)
  unfolding push
  push_all q [] = q
  push_all q (event ∷ events) = push_all (push q event).0 events

module _ {J : Type 0} ⦃ops : JsonOps J⦄ where
  -- The texts of the nodes; `none` is the type error of a node whose "text" is no string.
  unfoldable pub node_texts : String → List J → Option String
  node_texts message [] = some message
  node_texts message (node ∷ nodes) = elim (ops.member node "text") [
    | none ↦ node_texts message nodes
    | some v ↦ do text ← ops.as_text v; node_texts (append_text message text) nodes
  ]

  -- `if (data.is_array())`, the text of its nodes.
  unfoldable pub json_message : J → Option String
  unfolding node_texts
  json_message data_json = elim (ops.as_array data_json) [
    | none ↦ some ""
    | some nodes ↦ node_texts "" nodes
  ]

  unfoldable pub scout_events : (ℤ → String) → List ScoutResult → List (QueuedEvent J)
  scout_events location_name [] = []
  scout_events location_name (result ∷ results) =
      scout (record {
        location_id = result.location_id;
        location_name = location_name result.location_id;
        item_id = result.item_id;
        item_name = result.item_name;
        player_name = result.player_name;
      })
      ∷ scout_events location_name results

  -- The events that a callback queues; `none` if an exception leaves it, before it queues any.
  unfoldable pub events_of : ℤ → (ℤ → String) → Callback J → Option (List (QueuedEvent J))
  unfolding scout_events joined json_message
  events_of player_number location_name (item_received received) = some (
      item (record {
        item_id = received.item_id;
        item_name = received.item_name;
        sender = received.player_name;
        location_id = received.location_id;
        is_self = eqb_ℤ received.player_id player_number;
      })
      ∷ [])
  events_of player_number location_name (location_scouted results) =
      some (scout_events location_name results)
  events_of player_number location_name (slot_connected slot_name) = some (
      lifecycle (record {
        old_state = connecting;
        new_state = syncing;
        message = append_text "Connected to slot: " slot_name;
      })
      ∷ [])
  events_of player_number location_name (slot_refused errors) = some (
      failure (record {
        code = "CONNECTION_FAILED";
        message = "Slot connection refused";
        details = joined errors;
      })
      ∷ [])
  events_of player_number location_name disconnected = some (
      lifecycle (record {
        old_state = active;
        new_state = error_state;
        message = "Disconnected from server";
      })
      ∷ [])
  events_of player_number location_name (printed msg) =
      some (ap_message (record { type = "print"; message = msg; data_json = ops.null }) ∷ [])
  events_of player_number location_name (printed_json type data_json) = do
    message ← json_message data_json
    some (ap_message (record { type = type; message = message; data_json = data_json }) ∷ [])
  events_of player_number location_name (bounced data_json) =
      some (ap_message (record { type = "bounced"; message = ""; data_json = data_json }) ∷ [])

  -- The queue after a callback.
  unfoldable pub on_callback : ℤ → (ℤ → String) → PollingThread J → Callback J → PollingThread J
  unfolding events_of push_all
  on_callback player_number location_name p callback =
      elim (events_of player_number location_name callback) [
        | none ↦ p
        | some events ↦ record p { event_queue = push_all p.event_queue events }
      ]
