-- ===== src/Manager/Messages/Locks.antt =====
-- Which messages `update` can handle without waiting for its own mutex.
use apf_ue4ss.Prelude.{String, Bool, true, false, ◌≡◌, List, [], ◌∷◌, ◌++◌, if◌then◌else◌, arith}
use apf_ue4ss.Prelude.Text.{str_eq}
use apf_ue4ss.Prelude.Dict.{string_eq}
use apf_ue4ss.Types.Json.{JsonOps}
use apf_ue4ss.Types.Message.{IpcMessage}
use apf_ue4ss.Manager.{Manager, Surroundings, Action, handle_state}
use apf_ue4ss.Manager.Messages.{
  Outcome, done, thrown, deadlock, FrameworkEvent, handle_ipc_message, poll, process_events,
  exception_left, update,
}
use apf_ue4ss.Manager.Messages.Handlers.{message-Ends}
use apf_ue4ss.Prelude.{All, ◌≢◌, ◌||◌}
use apf_ue4ss.Manager.Messages.{after, and_then}

-- The message types whose handling takes the manager's mutex.
abbrev pub takes_lock : String → Bool
takes_lock type =
    str_eq type "register"
    || (str_eq type "cmd_restart"
        || (str_eq type "cmd_resync" || (str_eq type "cmd_reconnect" || str_eq type "command")))

-- An outcome that is no deadlock.
data Free {A : Type 0} : Outcome A → Type 0 where
  returns : (a : A) → Free (done a)
  throws : Free thrown

module _ {J : Type 0} where
  Free-after :
      (es : List (Action J)) {o : Outcome (Manager J × List (Action J))}
      → Free o
      → Free (after es o)
  Free-after es (returns a) = returns _
  Free-after es throws = throws

  Free-and_then :
      {o : Outcome (Manager J × List (Action J))}
      (next : Manager J → Outcome (Manager J × List (Action J)))
      → Free o
      → ((m : Manager J) → Free (next m))
      → Free (and_then o next)
  Free-and_then next (returns (m, es)) h = Free-after es (h m)
  Free-and_then next throws h = throws

Free-if : {A : Type 0} (b : Bool) (a : A) → Free (if b then thrown else done a)
Free-if true a = throws
Free-if false a = returns a

not_deadlock : {A : Type 0} {o : Outcome A} → Free o → o ≢ deadlock
not_deadlock (returns a) h = cc h
not_deadlock throws h = cc h

module _ {J : Type 0} ⦃ops : JsonOps J⦄ where
  message-Free :
      (m : Manager J) (s : Surroundings) (msg : IpcMessage J)
      → takes_lock msg.type ≡ false
      → Free (handle_ipc_message true m s msg)
  message-Free m s msg h =
      message-Ends m Free throws (λ next kept. returns next) true s msg
        (λ e. absurd (ground (arith, h, e))) (λ e. absurd (ground (arith, h, e)))
        (λ e. absurd (ground (arith, h, e))) (λ e. absurd (ground (arith, h, e)))
        (λ e. absurd (ground (arith, h, e)))

  poll-Free :
      (m : Manager J) (s : Surroundings) (msgs : List (IpcMessage J))
      → All (λ msg. takes_lock msg.type ≡ false) msgs
      → Free (poll true m s msgs)
  unfolding poll
  poll-Free m s [] h = returns (m, [])
  poll-Free m s (msg ∷ msgs) h =
      Free-and_then (λ next. poll true next s msgs) (message-Free m s msg h.0)
        (λ next. poll-Free next s msgs h.1)

  -- If none of the messages is a registration or a command, `update` does not wait for its mutex:
  -- it returns or throws.
  pub update-unlocked :
      (m : Manager J) (s : Surroundings) (msgs : List (IpcMessage J)) (events : List FrameworkEvent)
      → All (λ msg. takes_lock msg.type ≡ false) msgs
      → update m s msgs events ≢ deadlock
  unfolding update
  update-unlocked m s msgs events h = not_deadlock (
      Free-and_then _ (poll-Free m s msgs h) (λ next.
        let (m2, fs) = process_events next s events in
        let (m3, gs) = handle_state m2 s in Free-if (exception_left gs) (m3, fs ++ gs)))
