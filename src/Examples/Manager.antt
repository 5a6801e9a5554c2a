-- ===== src/Examples/Manager.antt =====
-- The manager at concrete inputs.
use apf_ue4ss.Prelude.{true, false, ◌≡◌, ◌↔◌, ◌⊎◌, refl, List, [], ◌∷◌, fold, if◌then◌else◌}
use apf_ue4ss.Prelude.Dict.{string_eq, lookup}
use apf_ue4ss.Types.Enums.{discovery, priority_registration, syncing, active, error_state}
use apf_ue4ss.Types.Json.{value, value_text}
use apf_ue4ss.Types.Message.{IpcMessage}
use apf_ue4ss.Registry.Pattern.{is_priority_client, get_mod_type}
use apf_ue4ss.Capabilities.Checksum.{compute_checksum}
use apf_ue4ss.Manager.{
  Manager, Surroundings, Action, threw, timed_out, handle_state, handle_syncing, load_once,
  generate,
}
use apf_ue4ss.Manager.Lifecycle.{
  Edge, handle_state-Edge, handle_syncing_iff, waiting_ends, generate-handle_syncing,
}
use apf_ue4ss.Manager.Messages.{done, deadlock, cmd_restart, handle_ipc_message, update}
use apf_ue4ss.Manager.Messages.Access.{
  update-register, cmd_restart-handle_state, handle_ipc_message-priority,
}
use apf_ue4ss.Manager.Messages.Locks.{update-unlocked}
use apf_ue4ss.Prelude.{◌≢◌, some}
use apf_ue4ss.Session.File.{stoll_error}
use apf_ue4ss.Registry.{DirEntry}
use apf_ue4ss.Registry as reg
use apf_ue4ss.Examples.Fixtures.{ruins, waiting, at}
use apf_ue4ss.Examples.Fixtures.{Doc, d_object, d_member, d_empty, d_text, doc_ops}

abbrev registers : IpcMessage Doc
registers = record {
  type = "register";
  source = "ruins.mod";
  target = "framework";
  payload = d_object (d_member "mod_id" (d_text "ruins.mod") d_empty);
}

handle_state-Edge_example :
    Edge priority_registration (handle_state waiting (at 2000)).0.current_state
handle_state-Edge_example = handle_state-Edge waiting (at 2000)

-- A start whose session file has a count under a key that is no number.
abbrev bad_file : Surroundings
bad_file = record (at 0) { file = stoll_error }

handle_syncing_iff_example :
    ((waiting.state_loaded ≡ false)
      × (bad_file.file ≡ stoll_error)
      × (handle_syncing waiting bad_file ≡ (waiting, threw ∷ [])))
    ⊎ (((load_once waiting bad_file).1 ≡ true)
        × (((handle_syncing waiting bad_file).0.current_state ≡ active) ↔ (
            ((load_once waiting bad_file).0.session.state.checksum ≡ "")
            ⊎ ((load_once waiting bad_file).0.session.state.checksum
                ≡ compute_checksum
                    (load_once waiting bad_file).0.capabilities
                    (load_once waiting bad_file).0.config.game_name
                    (load_once waiting bad_file).0.config.ap_server.slot_name)))
        × (((handle_syncing waiting bad_file).0.current_state ≡ active)
            ⊎ ((handle_syncing waiting bad_file).0.current_state ≡ error_state)))
handle_syncing_iff_example = handle_syncing_iff waiting bad_file

generate-handle_syncing_example :
    (handle_syncing (generate waiting 0 "Ruins").0 (at 5)).0.current_state ≡ active
generate-handle_syncing_example = generate-handle_syncing waiting 0 (at 5) refl

waiting_ends_example :
    (handle_state
      (handle_state (handle_state waiting (at 31000)).0 (at 91000)).0
      (at 121000)).0.current_state
    ≡ (if true then syncing else error_state)
unfolding timed_out
waiting_ends_example = waiting_ends waiting (at 31000) (at 91000) (at 121000) refl refl refl refl

update-register_example : update waiting (at 2000) (registers ∷ []) [] ≡ deadlock
unfolding value_text value lookup
update-register_example =
    update-register waiting (at 2000) registers [] [] "ruins.mod" "1.0.0" refl refl refl

cmd_restart-handle_state_example :
    (next : Manager Doc × List (Action Doc)) × (cmd_restart false waiting 9 ≡ done next)
    × (fold (λ m s. (handle_state m s).0) next.0 (at 10 ∷ at 99999 ∷ []) ≡ next.0)
    × (next.0.current_state ≡ discovery)
cmd_restart-handle_state_example = cmd_restart-handle_state waiting 9 (at 10 ∷ at 99999 ∷ [])

abbrev asks_restart : IpcMessage Doc
asks_restart = record registers { type = "cmd_restart" }

handle_ipc_message-priority_example : priority_registration ≡ priority_registration
unfolding is_priority_client get_mod_type handle_ipc_message
handle_ipc_message-priority_example =
    handle_ipc_message-priority true waiting (at 5) asks_restart (waiting, []) refl refl

abbrev checks_in : IpcMessage Doc
checks_in = record registers { type = "location_check" }

update-unlocked_example : update waiting (at 5) (checks_in ∷ []) [] ≢ deadlock
update-unlocked_example = update-unlocked waiting (at 5) (checks_in ∷ []) [] (refl, tt)

abbrev entry : DirEntry Doc
entry = record { is_directory = true; has_manifest = true; manifest = some ruins }
