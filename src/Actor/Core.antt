-- ===== src/Actor/Core.antt =====
-- runtime/actor.py: the fields of `RunActor`, its ports, and `_commit`. A port is a function that answers the
-- exception it raises, if any; it is given the state at the call. The calls that leave the actor are recorded.
use code_migrator.Base.{
  string_eq, nat_eq, ℕ, String, Bool, true, false, Option, none, some, List, [], ◌∷◌, ◌++◌, ◌==◌,
  ok, err, if◌then◌else◌,
}
use code_migrator.Wallet.Account.{Amounts}
use code_migrator.Integration.{IntegrationCoordinator}
use code_migrator.Actor.Status.{FailureReason, status_eq, status_value, reason_value}
use code_migrator.Actor.Events.{
  Data, EventSpec, ActorPhaseReceipt, spec, text, event_for_receipt, actor_phase_receipt,
}
use code_migrator.Actor.State.{RunState, RuntimeSnapshot}
use code_migrator.Actor.Store.{Store, Outcome, load, events_of}
use code_migrator.Actor.Store
use code_migrator.Actor.Intents.{IntegrationIntent}
use code_migrator.Actor.Advice.{Advice, AdviceValidationContext}

pub record RunCreatedReceipt : Type 0 where
  pub run_id : String
  pub receipt_key : String
  pub event_sequence : ℕ
  pub state_version : ℕ

pub record ExecuteRoundResult : Type 0 where
  pub receipt : ActorPhaseReceipt
  pub complete : Bool

-- A call of a port.
abbrev pub Port : Type 0
Port = RunState → Option String

pub data PortCall : Type 0 where
  cancel_work : String → PortCall
  schedule_continuation : String → ℕ → PortCall
  write_checkpoint : RunState → PortCall
  archive_candidates : String → PortCall
  dispatch_adopted : String → PortCall
  advance_one_round : String → String → PortCall

pub record RunActor : Type 0 where
  pub run_id : String
  pub store : Store
  pub budget_limits : Amounts
  pub advice_context : AdviceValidationContext
  pub advice_proposal_hash : Advice → String
  pub checkpoint_writer : Option Port
  pub cancellation_port : Option Port
  pub continuation_port : Option Port
  pub archive_port : Option Port
  pub integration_coordinator : Option IntegrationCoordinator
  pub repair_advice_port : Option Port
  pub has_execution_scheduler : Bool
  pub state : Option RunState
  pub last_error : Option String
  pub last_dispatch_acceptance : Option Bool
  pub create_receipt : Option RunCreatedReceipt
  -- `_execution_round_responses`, by their number, and the keys of `_execution_round_tasks`.
  pub execution_round_responses : List (String × ℕ)
  pub execution_round_tasks : List String
  pub calls : List PortCall

-- What the caller of a message is given: `none` where nobody waits.
pub data Response : Type 0 where
  no_response : Response
  cancelled_state : RunState → Response
  rejected : String → Response
  raised : String → Response
  phase_receipt : ActorPhaseReceipt → Response
  round_result : ExecuteRoundResult → Response
  committed_intent : IntegrationIntent → Response

-- A handler: the actor that it leaves, and the response.
abbrev pub Handled : Type 0
Handled = RunActor × Response

-- An exception that leaves the handler: `_run` keeps it and gives it to the caller.
abbrev pub raise_error : RunActor → String → Handled
raise_error a error = (record a { last_error = some error }, raised error)

abbrev reason_entries : Option FailureReason → Data
reason_entries none = []
reason_entries (some reason) = ("failure_reason", text (reason_value reason)) ∷ []

-- `_run_status_changed_event`
unfoldable pub run_status_changed_event : RunState → EventSpec
run_status_changed_event state =
    spec "run.status_changed"
      (("run_status", text (status_value state.status)) ∷ reason_entries state.failure_reason)

-- The events of a commit: a change of the status is announced.
unfoldable pub committed_events : Option RunState → RunState → List EventSpec → List EventSpec
committed_events none state events = events
committed_events (some previous) state events =
    if previous.status == state.status
    then events
    else events ++ run_status_changed_event state ∷ []

unfoldable pub adopt_snapshot : RunActor → Outcome RuntimeSnapshot → RunActor × Bool
adopt_snapshot a (store, ok snapshot) =
    (record a { store = store; state = some snapshot.state }, true)
adopt_snapshot a (store, err error) = (record a { store = store; last_error = some error }, false)

-- `_commit`
unfoldable pub commit : RunActor → RunState → List EventSpec → RunActor × Bool
unfolding adopt_snapshot committed_events
commit a state events =
    adopt_snapshot a (Store.commit a.store state (committed_events a.state state events))

-- `_commit`, where nothing follows it.
abbrev pub commit_only : RunActor → RunState → List EventSpec → Handled
commit_only a state events = ((commit a state events).0, no_response)

-- A call of a port, if there is one: an exception is kept.
abbrev pub call_port : RunActor → RunState → Option Port → PortCall → RunActor
call_port a state none call = a
call_port a state (some port) call = elim (port state) [
  | none ↦ record a { calls = a.calls ++ call ∷ [] }
  | some error ↦ record a { calls = a.calls ++ call ∷ []; last_error = some error }
]

-- The receipt of a command, reloaded from the log that was committed.
unfoldable pub respond_receipt : RunActor → String → String → Handled
unfolding actor_phase_receipt
respond_receipt a key missing = elim (event_for_receipt (events_of (load a.store a.run_id)) key) [
  | none ↦ raise_error a missing
  | some event ↦ elim (actor_phase_receipt a.run_id key event.sequence) [
    | ok receipt ↦ (a, phase_receipt receipt)
    | err error ↦ raise_error a error
  ]
]
