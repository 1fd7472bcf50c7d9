-- ===== src/Actor/Mailbox.antt =====
-- runtime/actor.py: `_handle` and `_handle_workflow_command`, which a mailbox message goes through.
use code_migrator.Base.{
  string_eq, ℕ, String, Bool, not, Option, none, some, List, [], ◌∷◌, ◌==◌, get, if◌then◌else◌,
  Result, ok, err,
}
use code_migrator.Wallet.Account.{Amounts}
use code_migrator.Actor.Events.{
  RuntimeEvent, ActorPhaseReceipt, is_true, event_for_receipt, actor_phase_receipt,
}
use code_migrator.Actor.State.{RunState, RuntimeSnapshot, ActiveDispatch}
use code_migrator.Actor.AgentRuns.{AgentRun, AgentRunReceipt}
use code_migrator.Actor.Intents.{IntegrationIntent}
use code_migrator.Actor.Store.{CasObject, load, events_of}
use code_migrator.Actor.Advice.{Advice}
use code_migrator.Actor.Core.{RunActor, Handled, phase_receipt, round_result, raise_error}
use code_migrator.Actor.Inputs.{SessionPayload, handle_create, handle_cancel, handle_session_input}
use code_migrator.Actor.Dispatches.{handle_execution}
use code_migrator.Actor.Budget.{Breaker, handle_budget}
use code_migrator.Actor.Judgement.{RecoveryCommand, handle_recovery, handle_advice}
use code_migrator.Actor.Workflow.{
  PlanAcceptance, VerificationSummary, ReportSummary, record_agent_run_started,
  record_agent_run_terminal, is_terminal_replay, accept_plan, commit_verification, commit_report,
}
use code_migrator.Actor.Integrations.{
  persist_integration_intent, record_integration_completed, is_integration_replay,
}
use code_migrator.Actor.Candidates.{CandidateVerifier}
use code_migrator.Actor.Rounds.{
  ExecutionRoundDecision, schedule_execution_round, handle_round_finished,
}

-- The payload of a workflow command, by its kind.
pub data Command : Type 0 where
  accept_plan_command : PlanAcceptance → Command
  execute_round : Command
  agent_run_started : String → Command
  agent_run_terminal : AgentRun → AgentRunReceipt → CasObject → Command
  integration_intent : IntegrationIntent → Command
  integration_completed : IntegrationIntent → String → Command
  verification : VerificationSummary → Command
  report : ReportSummary → Command

-- `RuntimeMessage`
pub data Message : Type 0 where
  create_run : String → String → Bool → Message
  cancel : ℕ → Message
  session_input : String → SessionPayload → Message
  execution_receipt : String → ActiveDispatch → Option String → Bool → Message
  budget_event : Amounts → Message
  recovery : RecoveryCommand → Message
  advice : Advice → Message
  workflow_command : String → String → Command → Message
  round_finished : String → Result String ExecutionRoundDecision → Message

-- The checks of a command whose receipt is in the log: the error, if one raises.
unfoldable pub replay_error : RunActor → String → RuntimeEvent → Command → Option String
replay_error a key event (agent_run_terminal r receipt object) =
    if is_terminal_replay a key r receipt object
    then none
    else some "AgentRun terminal replay differs from committed facts"
replay_error a key event (integration_completed intent oid) =
    if is_integration_replay a intent oid event.sequence
    then none
    else some "integration receipt replay mismatch"
replay_error a key event _ = none

abbrev pub replay_response : RunActor → RuntimeEvent → Command → ActorPhaseReceipt → Handled
replay_response a event execute_round receipt = (
  a,
  round_result (record { receipt = receipt; complete = is_true (get "complete" event.entries) }),
)
replay_response a event _ receipt = (a, phase_receipt receipt)

unfoldable pub replay : RunActor → String → RuntimeEvent → Command → Handled
unfolding replay_error
replay a key event command = elim (replay_error a key event command) [
  | some error ↦ raise_error a error
  | none ↦ elim (actor_phase_receipt a.run_id key event.sequence) [
    | err error ↦ raise_error a error
    | ok receipt ↦ replay_response a event command receipt
  ]
]

unfoldable pub reduce_command : RunActor → RunState → String → Command → Handled
reduce_command a state key (accept_plan_command p) = accept_plan a state key p
reduce_command a state key execute_round = schedule_execution_round a state key
reduce_command a state key (agent_run_started id) = record_agent_run_started a state key id
reduce_command a state key (agent_run_terminal r receipt object) =
    record_agent_run_terminal a state key r receipt object
reduce_command a state key (integration_intent intent) =
    persist_integration_intent a state key intent
reduce_command a state key (integration_completed intent oid) =
    record_integration_completed a state key intent oid
reduce_command a state key (verification result) = commit_verification a state key result
reduce_command a state key (report result) = commit_report a state key result

-- The call for a command that has no receipt yet.
abbrev pub with_facts :
    RunActor → String → Command → Option RunState → Option RuntimeSnapshot → Handled
with_facts a key command (some state) (some snapshot) = reduce_command a state key command
with_facts a key command _ _ = raise_error a "workflow owner Run does not exist"

unfoldable pub handle_workflow_command : RunActor → String → String → Command → Handled
unfolding replay reduce_command
handle_workflow_command a run_id key command =
    if not (run_id == a.run_id)
    then raise_error a "workflow command Run identity mismatch"
    else elim (event_for_receipt (events_of (load a.store a.run_id)) key) [
      | some event ↦ replay a key event command
      | none ↦ with_facts a key command a.state (load a.store a.run_id)
    ]

unfoldable pub handle : Breaker → CandidateVerifier → RunActor → Message → Handled
handle b v a (create_run run_id request in_transaction) =
    handle_create a run_id request in_transaction
handle b v a (cancel expected_version) = handle_cancel a expected_version
handle b v a (session_input kind payload) = handle_session_input a kind payload
handle b v a (execution_receipt run_id dispatch status started) =
    handle_execution a run_id dispatch status started
handle b v a (budget_event amounts) = handle_budget b a amounts
handle b v a (recovery command) = handle_recovery a command
handle b v a (advice proposal) = handle_advice a proposal
handle b v a (workflow_command run_id key command) = handle_workflow_command a run_id key command
handle b v a (round_finished key decision) = handle_round_finished a v key decision

-- The mailbox: one message after another.
unfoldable pub run : Breaker → CandidateVerifier → RunActor → List Message → RunActor
run b v a [] = a
run b v a (message ∷ messages) = run b v (handle b v a message).0 messages
