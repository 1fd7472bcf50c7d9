-- ===== src/Actor/Refines/Handle.antt =====
-- runtime/actor.py: what a message does to the actor, and what a mailbox of messages does.
use code_migrator.Base.{
  string_eq, String, ◌≡◌, refl, not, Option, none, some, List, [], ◌∷◌, ◌==◌, if_cases,
  option_cases, result_cases, get,
}
use code_migrator.Actor.Events.{
  RuntimeEvent, ActorPhaseReceipt, event_for_receipt, actor_phase_receipt,
}
use code_migrator.Actor.State.{RunState, RuntimeSnapshot}
use code_migrator.Actor.Store.{load, events_of}
use code_migrator.Actor.Core.{RunActor, Handled}
use code_migrator.Actor.Budget.{Breaker}
use code_migrator.Actor.Candidates.{CandidateVerifier}
use code_migrator.Actor.Mailbox.{
  Command, Message, replay_error, replay_response, replay, reduce_command, with_facts,
  handle_workflow_command, handle, run, accept_plan_command, execute_round, agent_run_started,
  agent_run_terminal, integration_intent, integration_completed, verification, report, create_run,
  cancel, session_input, execution_receipt, budget_event, recovery, advice, workflow_command,
  round_finished,
}
use code_migrator.Actor.Redaction.{KeepsKeys}
use code_migrator.Actor.Transition.{
  Step, Same, IsCoherent, Step-refl, Step-Same, Step-IsCoherent, coherent-owned,
}
use code_migrator.Actor.Refines.Inputs.{
  StepsTo, handle_create-Step, handle_cancel-Step, session_input-Step,
}
use code_migrator.Actor.Refines.Judgement.{
  handle_execution-Step, handle_budget-Step, handle_recovery-Step, handle_advice-Step,
}
use code_migrator.Actor.Refines.Workflow.{
  raise_error-Step, record_agent_run_started-Step, record_agent_run_terminal-Step, accept_plan-Step,
  commit_verification-Step, commit_report-Step,
}
use code_migrator.Actor.Refines.Integrations.{
  persist_integration_intent-Step, record_integration_completed-Step,
}
use code_migrator.Actor.Refines.Rounds.{schedule_execution_round-Step, handle_round_finished-Step}

-- A command that ends an agent run: its receipt is not stored yet.
abbrev EndsOnce : RunActor → Command → Type 0
EndsOnce a (accept_plan_command p) = get p.run.agent_run_id a.store.agent_receipts ≡ none
EndsOnce a (agent_run_terminal r receipt object) = get r.agent_run_id a.store.agent_receipts ≡ none
EndsOnce a _ = Unit

-- What is assumed of a message: an agent run ends once, and redaction keeps the keys of receipts.
abbrev pub IsAdmissible : RunActor → Message → Type 0
IsAdmissible a (workflow_command run_id key command) =
    EndsOnce a command × KeepsKeys a.store.secret_registry
IsAdmissible a _ = Unit

pub replay-Same :
    (a : RunActor) (key : String) (event : RuntimeEvent) (command : Command)
    → Same a (replay a key event command).0
unfolding replay
replay-Same a key event command =
    let P : Handled → Type 0 = λ h. Same a h.0 in
    option_cases P (replay_error a key event command)
      (λ e.
        result_cases P (actor_phase_receipt a.run_id key event.sequence)
          (λ receipt k. replay_response-Same command receipt) (λ error k. (refl, refl, refl)))
      (λ error e. (refl, refl, refl))
  where
    replay_response-Same :
        (c : Command) (receipt : ActorPhaseReceipt) → Same a (replay_response a event c receipt).0
    replay_response-Same (accept_plan_command p) receipt = (refl, refl, refl)
    replay_response-Same execute_round receipt = (refl, refl, refl)
    replay_response-Same (agent_run_started id) receipt = (refl, refl, refl)
    replay_response-Same (agent_run_terminal r x y) receipt = (refl, refl, refl)
    replay_response-Same (integration_intent i) receipt = (refl, refl, refl)
    replay_response-Same (integration_completed i oid) receipt = (refl, refl, refl)
    replay_response-Same (verification result) receipt = (refl, refl, refl)
    replay_response-Same (report result) receipt = (refl, refl, refl)

reduce_command-Step :
    (a : RunActor) (s : RunState) (run_id key : String) (command : Command)
    → a.state ≡ some s
    → IsCoherent a
    → EndsOnce a command
    → KeepsKeys a.store.secret_registry
    → StepsTo (workflow_command run_id key command) a (reduce_command a s key command)
unfolding reduce_command
reduce_command-Step a s run_id key (accept_plan_command p) known h fresh keys =
    accept_plan-Step a s run_id key p known (coherent-owned a s h known) fresh
reduce_command-Step a s run_id key execute_round known h fresh keys =
    schedule_execution_round-Step a s key
reduce_command-Step a s run_id key (agent_run_started id) known h fresh keys =
    record_agent_run_started-Step a s run_id key id known (coherent-owned a s h known)
reduce_command-Step a s run_id key (agent_run_terminal r receipt object) known h fresh keys =
    record_agent_run_terminal-Step a s run_id key r receipt object known
      (coherent-owned a s h known) fresh
reduce_command-Step a s run_id key (integration_intent intent) known h fresh keys =
    persist_integration_intent-Step a s key intent
reduce_command-Step a s run_id key (integration_completed intent oid) known h fresh keys =
    record_integration_completed-Step a s run_id key intent oid known h keys
reduce_command-Step a s run_id key (verification result) known h fresh keys =
    commit_verification-Step a s run_id key result known (coherent-owned a s h known)
reduce_command-Step a s run_id key (report result) known h fresh keys =
    commit_report-Step a s run_id key result known (coherent-owned a s h known)

with_facts-Step :
    (a : RunActor) (run_id key : String) (command : Command) (o : Option RunState)
    (snapshot : Option RuntimeSnapshot)
    → a.state ≡ o
    → IsCoherent a
    → EndsOnce a command
    → KeepsKeys a.store.secret_registry
    → StepsTo (workflow_command run_id key command) a (with_facts a key command o snapshot)
with_facts-Step a run_id key command none snapshot known h fresh keys = raise_error-Step a _
with_facts-Step a run_id key command (some s) none known h fresh keys = raise_error-Step a _
with_facts-Step a run_id key command (some s) (some snapshot) known h fresh keys =
    reduce_command-Step a s run_id key command known h fresh keys

workflow_command-Step :
    (a : RunActor) (run_id key : String) (command : Command)
    → IsCoherent a
    → EndsOnce a command
    → KeepsKeys a.store.secret_registry
    → StepsTo (workflow_command run_id key command) a (handle_workflow_command a run_id key command)
unfolding handle_workflow_command
workflow_command-Step a run_id key command h fresh keys =
    if_cases (StepsTo _ a) (not (run_id == a.run_id)) (λ e. raise_error-Step a _)
      (λ e.
        option_cases (StepsTo _ a) (event_for_receipt (events_of (load a.store a.run_id)) key)
          (λ k.
            with_facts-Step a run_id key command a.state (load a.store a.run_id) refl h fresh keys)
          (λ event k. Step-Same a a _ (replay-Same a key event command) (Step-refl a)))

-- A message to a coherent actor keeps its state and log, or does what the message means: the state
-- changes as `Meant` says for this message, by one of the transitions, and new events are appended to
-- the log, numbered on, of exactly the types that `Meant` says for this change; those of a round are
-- said up to the events before `run.execute.round`. The message is admissible: an agent run ends once,
-- and redaction keeps the keys of receipts.
pub handle-Step :
    (b : Breaker) (v : CandidateVerifier) (a : RunActor) (message : Message)
    → IsCoherent a
    → IsAdmissible a message
    → Step message a (handle b v a message).0
unfolding handle
handle-Step b v a (create_run run_id request t) h ok_ = handle_create-Step a run_id request t
handle-Step b v a (cancel version) h ok_ = handle_cancel-Step a version h
handle-Step b v a (session_input kind payload) h ok_ = session_input-Step a kind payload h
handle-Step b v a (execution_receipt run_id dispatch status started) h ok_ =
    handle_execution-Step a run_id dispatch status started h
handle-Step b v a (budget_event amounts) h ok_ = handle_budget-Step b a amounts h
handle-Step b v a (recovery command) h ok_ = handle_recovery-Step a command h
handle-Step b v a (advice proposal) h ok_ = handle_advice-Step a proposal h
handle-Step b v a (workflow_command run_id key command) h ok_ =
    workflow_command-Step a run_id key command h ok_.0 ok_.1
handle-Step b v a (round_finished key decision) h ok_ =
    handle_round_finished-Step a v key decision h

-- Each message of a mailbox is admissible when it is handled.
abbrev pub AllAdmissible : Breaker → CandidateVerifier → RunActor → List Message → Type 0
AllAdmissible b v a [] = Unit
AllAdmissible b v a (message ∷ messages) =
    IsAdmissible a message × AllAdmissible b v (handle b v a message).0 messages

-- Whatever admissible messages a coherent actor handles, its state is afterwards the one in the
-- store's snapshot of its run, and there is no snapshot where it has no state.
pub run-IsCoherent :
    (b : Breaker) (v : CandidateVerifier) (a : RunActor) (messages : List Message)
    → IsCoherent a
    → AllAdmissible b v a messages
    → IsCoherent (run b v a messages)
unfolding run
run-IsCoherent b v a [] h good = h
run-IsCoherent b v a (message ∷ messages) h good =
    let next = (handle b v a message).0 in
    run-IsCoherent b v next messages (Step-IsCoherent a next (handle-Step b v a message h good.0) h)
      good.1
