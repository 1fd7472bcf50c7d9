-- ===== src/Actor/Meaning.antt =====
-- runtime/actor.py: what a message means for a run. For each kind of message: the states in which it
-- changes the run, the state that it leads to, and the types of the events that it writes.
use code_migrator.Base.{
  string_eq, nat_eq, ℕ, suc, String, ◌≡◌, Bool, true, false, not, ◌||◌, Option, none, some, List,
  [], ◌∷◌, ◌++◌, ◌==◌, if◌then◌else◌, keep, any, map, contains, ◌⊎◌, get, get_or, put, ok,
}
use code_migrator.Integration.{is_some}
use code_migrator.Wallet.Account.{Amounts, sum}
use code_migrator.Actor.Status.{
  RunStatus, status_eq, planning, executing, verifying, reporting, failed, cancelled,
  budget_exhausted, is_terminal,
}
use code_migrator.Actor.State.{
  RunState, ActiveDispatch, CandidateCheckpointFact, dispatch_eq, run_state,
}
use code_migrator.Actor.AgentRuns.{AgentRun, AgentRunReceipt}
use code_migrator.Actor.Store.{CasObject}
use code_migrator.Actor.Intents.{IntegrationIntent}
use code_migrator.Actor.Inputs.{SessionPayload, is_eligible, sorted_counts, generation_of}
use code_migrator.Actor.Dispatches.{has_key, find_active, is_active}
use code_migrator.Actor.Judgement.{RecoveryCommand, RecoveryTrigger, recovery_trigger}
use code_migrator.Actor.Advice.{Advice}
use code_migrator.Actor.Workflow.{
  PlanAcceptance, VerificationSummary, ReportSummary, status_of_report,
}
use code_migrator.Actor.Events.{receipt_key}
use code_migrator.Actor.Integrations.{has_candidate}
use code_migrator.Actor.Rounds.{ExecutionRoundDecision}
use code_migrator.Actor.Mailbox.{
  Message, accept_plan_command, agent_run_started, agent_run_terminal, integration_completed,
  verification, report, create_run, cancel, session_input, execution_receipt, budget_event,
  recovery, advice, workflow_command, round_finished,
}

-- A change of the status is announced after the other events.
abbrev pub announced : RunStatus → RunStatus → List String → List String
announced x y types = if x == y then types else types ++ "run.status_changed" ∷ []

-- The next version of a state.
abbrev next_version : RunState → RunState
next_version s = record s { version = suc s.version }

abbrev pub continuations : RunState → ℕ → ℕ
continuations s generation = get_or 0 (get generation s.continuation_counts)

abbrev is_in_flight : RunState → ActiveDispatch → Bool
is_in_flight s d = is_active (find_active (has_key d s.run_id) s.active_dispatches) d

pub data Meant : Message → Option RunState → RunState → List String → Type 0 where
  creation :
      (run_id owner request : String) (in_transaction : Bool)
      → run_id ≡ owner
      → Meant
          (create_run run_id request in_transaction)
          none
          (record (run_state owner) {
            status = planning;
            version = 1;
            create_request = some request;
          })
          ("run.created" ∷ "run.status_changed" ∷ [])
  cancellation :
      {s : RunState} (version : ℕ)
      → version ≡ s.version
      → is_terminal s.status ≡ false
      → Meant
          (cancel version)
          (some s)
          (record s {
            status = cancelled;
            cancel_requested = true;
            new_calls_enabled = false;
            active_dispatches = [];
            version = suc s.version;
          })
          (announced s.status cancelled ("run.cancelled" ∷ []))
  confirmation :
      {s : RunState} (kind : String) (p : SessionPayload)
      → is_terminal s.status ≡ false
      → (kind == "confirm_advice") ≡ true
      → contains (get_or "" p.advice_id) s.pending_advice_ids ≡ true
      → Meant
          (session_input kind p)
          (some s)
          (record s {
            pending_advice_ids =
                keep (λ item. not (item == get_or "" p.advice_id)) s.pending_advice_ids;
            adopted_advice_ids = s.adopted_advice_ids ++ get_or "" p.advice_id ∷ [];
            version = suc s.version;
          })
          (announced s.status s.status ("advice.confirmed" ∷ []))
  refused_confirmation :
      {s : RunState} (kind : String) (p : SessionPayload)
      → is_terminal s.status ≡ false
      → (kind == "confirm_advice") ≡ true
      → contains (get_or "" p.advice_id) s.pending_advice_ids ≡ false
      → Meant
          (session_input kind p)
          (some s)
          s
          (announced s.status s.status ("advice.confirmation_rejected" ∷ []))
  continuation :
      {s : RunState} (kind : String) (p : SessionPayload) (generation : ℕ)
      → is_terminal s.status ≡ false
      → (kind == "segment_stopped") ≡ true
      → generation_of p.generation ≡ some generation
      → is_eligible s p generation ≡ true
      → Meant
          (session_input kind p)
          (some s)
          (record s {
            continuation_counts =
                sorted_counts
                  (put generation (suc (continuations s generation)) s.continuation_counts);
            version = suc s.version;
          })
          (announced s.status s.status ("session.continuation_scheduled" ∷ []))
  slice_failure :
      {s : RunState} (kind : String) (p : SessionPayload) (generation : ℕ)
      → is_terminal s.status ≡ false
      → (kind == "segment_stopped") ≡ true
      → generation_of p.generation ≡ some generation
      → is_eligible s p generation ≡ false
      → Meant
          (session_input kind p)
          (some s)
          (record s {
            continuation_counts =
                sorted_counts (put generation (continuations s generation) s.continuation_counts);
            terminal_slice_failures =
                if not (contains (get_or "unknown" p.slice_id) s.terminal_slice_failures)
                then s.terminal_slice_failures ++ get_or "unknown" p.slice_id ∷ []
                else s.terminal_slice_failures;
            version = suc s.version;
          })
          (announced s.status s.status ("slice.terminal_failed" ∷ []))
  invalid_generation :
      {s : RunState} (kind : String) (p : SessionPayload)
      → is_terminal s.status ≡ false
      → (kind == "segment_stopped") ≡ true
      → generation_of p.generation ≡ none
      → Meant
          (session_input kind p)
          (some s)
          (next_version s)
          (announced s.status s.status ("slice.terminal_failed" ∷ []))
  other_input :
      {s : RunState} (kind : String) (p : SessionPayload)
      → is_terminal s.status ≡ false
      → (kind == "confirm_advice") ≡ false
      → (kind == "segment_stopped") ≡ false
      → Meant
          (session_input kind p)
          (some s)
          (next_version s)
          (announced s.status s.status ("session.input.accepted" ∷ []))
  foreign_result :
      {s : RunState} (run_id : String) (d : ActiveDispatch) (status : Option String)
      → (run_id == s.run_id) ≡ false
      → Meant
          (execution_receipt run_id d status false)
          (some s)
          s
          (announced s.status s.status ("LATE_DISPATCH_RESULT" ∷ []))
  late_result :
      {s : RunState} (run_id : String) (d : ActiveDispatch) (status : Option String)
      → is_in_flight s d ≡ false
      → Meant
          (execution_receipt run_id d status false)
          (some s)
          s
          (announced s.status s.status ("LATE_DISPATCH_RESULT" ∷ []))
  dispatching :
      {s : RunState} (run_id : String) (d : ActiveDispatch) (status : Option String)
      → is_terminal s.status ≡ false
      → s.new_calls_enabled ≡ true
      → s.cancel_requested ≡ false
      → any (has_key d s.run_id) s.active_dispatches ≡ false
      → Meant
          (execution_receipt run_id d status true)
          (some s)
          (record s {
            status = executing;
            active_dispatches = s.active_dispatches ++ d ∷ [];
            version = suc s.version;
          })
          (announced s.status executing ("dispatch.started" ∷ []))
  completion :
      {s : RunState} (run_id : String) (d : ActiveDispatch) (status : Option String)
      → is_in_flight s d ≡ true
      → Meant
          (execution_receipt run_id d status false)
          (some s)
          (record s {
            active_dispatches = keep (λ item. not (item == d)) s.active_dispatches;
            version = suc s.version;
          })
          (announced s.status s.status ("dispatch.completed" ∷ []))
  spending :
      {s : RunState} (additions : Amounts) (warning : Bool) (warned : List String)
      → is_terminal s.status ≡ false
      → warned ≡ (if warning then "budget.warning" ∷ [] else [])
      → Meant
          (budget_event additions)
          (some s)
          (record s {
            budget_usage = sum s.budget_usage additions;
            budget_warning_emitted = s.budget_warning_emitted || warning;
            version = suc s.version;
          })
          (announced s.status s.status warned)
  exhaustion :
      {s : RunState} (additions : Amounts) (warning : Bool)
      (warned unwritten unarchived types : List String)
      → is_terminal s.status ≡ false
      → warned ≡ (if warning then "budget.warning" ∷ [] else [])
      → (unwritten ≡ []) ⊎ (unwritten ≡ "checkpoint.write_failed" ∷ [])
      → (unarchived ≡ []) ⊎ (unarchived ≡ "archive.failed" ∷ [])
      → types
        ≡ warned
          ++ "checkpoint.pre" ∷ []
          ++ unwritten
          ++ unarchived
          ++ "run.archived" ∷ "run.failed" ∷ "budget.exhausted" ∷ []
      → Meant
          (budget_event additions)
          (some s)
          (record s {
            status = failed;
            failure_reason = some budget_exhausted;
            new_calls_enabled = false;
            active_dispatches = [];
            budget_usage = sum s.budget_usage additions;
            budget_warning_emitted = s.budget_warning_emitted || warning;
            version = suc s.version;
          })
          (announced s.status failed types)
  recovered :
      {s : RunState} (command : RecoveryCommand) (kind : RecoveryTrigger) (types : List String)
      → recovery_trigger command.trigger ≡ some kind
      → types
        ≡ "recovery.actor_rebuilt" ∷ []
          ++ map (λ id. "dispatch.interrupted") command.active_dispatch_ids
          ++ "git.refs.reconciled" ∷ "receipts.repaired" ∷ []
          ++ map (receipt_key "integration.intent.retry:") command.missing_intent_ids
          ++ (if command.checkpoint_corrupt then "checkpoint.discarded" ∷ [] else [])
          ++ (if command.ref_drift then "recovery.ref_drift" ∷ [] else [])
          ++ "recovery.completed" ∷ []
      → Meant
          (recovery command)
          (some s)
          (record s {
            active_dispatches = [];
            reporting_halted = command.ref_drift;
            version = suc s.version;
          })
          (announced s.status s.status types)
  adoption :
      {s : RunState} (p : Advice)
      → contains p.advice_id s.adopted_advice_ids ≡ false
      → Meant
          (advice p)
          (some s)
          (record s {
            adopted_advice_ids = s.adopted_advice_ids ++ p.advice_id ∷ [];
            version = suc s.version;
          })
          (announced s.status s.status ("advice.adopted" ∷ []))
  wait_for_confirmation :
      {s : RunState} (p : Advice)
      → contains p.advice_id s.pending_advice_ids ≡ false
      → Meant
          (advice p)
          (some s)
          (record s {
            pending_advice_ids = s.pending_advice_ids ++ p.advice_id ∷ [];
            version = suc s.version;
          })
          (announced s.status s.status ("advice.confirmation_required" ∷ []))
  repeated_advice :
      {s : RunState} (p : Advice)
      → (contains p.advice_id s.adopted_advice_ids || contains p.advice_id s.pending_advice_ids)
        ≡ true
      → Meant (advice p) (some s) s (announced s.status s.status ("advice.duplicate" ∷ []))
  discarded_advice :
      {s : RunState} (p : Advice)
      → Meant (advice p) (some s) s (announced s.status s.status ("advice.discarded" ∷ []))
  plan_acceptance :
      {s : RunState} (run_id key : String) (p : PlanAcceptance)
      → s.status ≡ planning
      → Meant
          (workflow_command run_id key (accept_plan_command p))
          (some s)
          (record s {
            status = executing;
            frozen_plan_sha256 = some p.plan_hash;
            version = suc s.version;
          })
          ("agent_run.terminal" ∷ "run.plan.accepted" ∷ "run.status_changed" ∷ [])
  run_start :
      {s : RunState} (run_id key id : String)
      → Meant
          (workflow_command run_id key (agent_run_started id))
          (some s)
          (next_version s)
          (announced s.status s.status ("agent_run.started" ∷ []))
  run_end :
      {s : RunState} (run_id key : String) (r : AgentRun) (receipt : AgentRunReceipt)
      (object : CasObject)
      → s.status ≡ executing
      → Meant
          (workflow_command run_id key (agent_run_terminal r receipt object))
          (some s)
          (next_version s)
          ("agent_run.terminal" ∷ [])
  integration :
      {s : RunState} (run_id key : String) (intent : IntegrationIntent) (oid : String)
      → oid ≡ intent.prospective_commit_oid
      → has_candidate s intent ≡ true
      → Meant
          (workflow_command run_id key (integration_completed intent oid))
          (some s)
          (next_version s)
          ("integration.completed" ∷ "verified.advanced" ∷ [])
  verdict :
      {s : RunState} (run_id key : String) (result : VerificationSummary)
      → s.status ≡ verifying
      → Meant
          (workflow_command run_id key (verification result))
          (some s)
          (record s { status = reporting; version = suc s.version })
          (announced s.status reporting ("run.verify.completed" ∷ []))
  final_report :
      {s : RunState} (run_id key : String) (result : ReportSummary)
      → s.status ≡ reporting
      → Meant
          (workflow_command run_id key (report result))
          (some s)
          (record s { status = status_of_report result.status; version = suc s.version })
          (announced s.status (status_of_report result.status) ("run.report.completed" ∷ []))
  round_end :
      {s : RunState} (key : String) (d : ExecutionRoundDecision)
      (facts : List CandidateCheckpointFact) (earlier types : List String)
      → s.status ≡ executing
      → is_some s.frozen_plan_sha256 ≡ true
      → types ≡ earlier ++ "run.execute.round" ∷ []
      → Meant
          (round_finished key (ok d))
          (some s)
          (record s {
            status = if d.complete then verifying else executing;
            candidate_checkpoints = facts;
            version = suc s.version;
          })
          (announced s.status (if d.complete then verifying else executing) types)
