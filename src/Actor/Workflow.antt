-- ===== src/Actor/Workflow.antt =====
-- runtime/actor.py: the commands of the workflow that commit a receipt: the start and the end of an agent run,
-- the acceptance of the plan, verification and report. The types of a payload need no check here.
use code_migrator.Base.{
  string_eq, nat_eq, option_eq, suc, String, Bool, true, false, not, ◌&&◌, ◌||◌, Option, none, some,
  [], ◌∷◌, ◌==◌, get, if◌then◌else◌, ok, err,
}
use code_migrator.Integration.{is_some}
use code_migrator.Actor.Status.{
  RunStatus, status_eq, status_value, planning, executing, verifying, reporting, completed,
  partially_completed,
}
use code_migrator.Actor.Events.{spec, text, flag, receipt_key, has_agent_run_event}
use code_migrator.Actor.State.{RunState}
use code_migrator.Actor.AgentRuns.{
  AgentRun, AgentRunReceipt, SessionState, SessionExit, is_write_kind, is_terminal_state,
  same_frozen_identity, same_record, same_receipt, started_spec, terminal_spec, phase_value,
  session_kind_value, session_state_value, exit_value,
}
use code_migrator.Actor.Store.{Outcome, CasObject, load, events_of}
use code_migrator.Actor.Terminals.{commit_agent_run_receipt, get_cas_reference, refers_to}
use code_migrator.Actor.Core.{
  RunActor, Handled, raise_error, commit, respond_receipt, run_status_changed_event,
}

-- The state with the next version.
abbrev pub bump : RunState → RunState
bump state = record state { version = suc state.version }

-- The answer to a command whose events were given to `_commit`; an assertion has an empty message.
unfoldable pub after_commit : RunActor × Bool → String → String → String → Handled
after_commit (a, false) key failure missing = raise_error a failure
after_commit (a, true) key failure missing = respond_receipt a key missing

-- `_record_agent_run_started`: whether the stored record is one that may start.
unfoldable pub may_start : RunActor → RunState → AgentRun → Bool
may_start a state record_ =
    record_.owner_kind == "run"
    && record_.owner_id == a.run_id
    && (phase_value record_.phase == "PLAN" || phase_value record_.phase == "EXECUTE")
    && not (is_terminal_state record_.state)
    && (state.status == planning || state.status == executing)

unfoldable pub start_agent_run : RunActor → RunState → String → AgentRun → Handled
unfolding after_commit may_start
start_agent_run a state key record_ =
    if not (may_start a state record_)
    then raise_error a "AgentRun start facts do not match the active Run owner"
    else elim (started_spec record_) [
      | err error ↦ raise_error a error
      | ok event ↦
          after_commit (commit a (bump state) (event ∷ [])) key
            "AgentRun start receipt could not be committed"
            "committed AgentRun start receipt cannot be reloaded"
    ]

unfoldable pub record_agent_run_started : RunActor → RunState → String → String → Handled
unfolding start_agent_run
record_agent_run_started a state key agent_run_id = elim (get agent_run_id a.store.agent_runs) [
  | none ↦ raise_error a "AgentRun start facts do not match the active Run owner"
  | some record_ ↦ start_agent_run a state key record_
]

-- An end with a candidate checkpoint is exactly one that completed.
unfoldable pub checkpoint_matches_exit : AgentRun → Bool
checkpoint_matches_exit record_ =
    if is_completed record_.exit
    then is_some record_.candidate_checkpoint_sha256
    else not (is_some record_.candidate_checkpoint_sha256)
  where
    is_completed : Option SessionExit → Bool
    is_completed none = false
    is_completed (some e) = exit_value e == "COMPLETED"

abbrev same_frozen : Option AgentRun → AgentRun → Bool
same_frozen none record_ = false
same_frozen (some current) record_ = same_frozen_identity current record_

unfoldable pub may_end :
    RunActor → RunState → String → AgentRun → AgentRunReceipt → CasObject → Bool
unfolding checkpoint_matches_exit receipt_key
may_end a state key record_ receipt result_object =
    state.status == executing
    && record_.owner_kind == "run"
    && record_.owner_id == a.run_id
    && phase_value record_.phase == "EXECUTE"
    && is_write_kind record_.session_kind
    && is_some record_.slice_ref
    && is_some record_.write_scope_sha256
    && is_terminal_state record_.state
    && record_.result_sha256 == some result_object.digest
    && receipt.agent_run_id == record_.agent_run_id
    && receipt.category == "session.terminal"
    && same_frozen (get record_.agent_run_id a.store.agent_runs) record_
    && has_agent_run_event (events_of (load a.store a.run_id)) "agent_run.started"
        record_.agent_run_id
    && checkpoint_matches_exit record_
    && key == receipt_key "agent_run.terminal:" record_.agent_run_id

-- A commit with the receipt of an agent run: where it succeeds, the next state is adopted.
unfoldable pub adopt_receipt :
    RunActor → RunState → String → String → Outcome AgentRunReceipt → Handled
adopt_receipt a next key missing (store, err error) = raise_error (record a { store = store }) error
adopt_receipt a next key missing (store, ok receipt) =
    respond_receipt (record a { store = store; state = some next }) key missing

unfoldable pub record_agent_run_terminal :
    RunActor → RunState → String → AgentRun → AgentRunReceipt → CasObject → Handled
unfolding may_end adopt_receipt receipt_key
record_agent_run_terminal a state key record_ receipt result_object =
    if not (may_end a state key record_ receipt result_object)
    then raise_error a "EXECUTE terminal AgentRun facts failed owner validation"
    else elim (terminal_spec record_ receipt) [
      | err error ↦ raise_error a error
      | ok event ↦
          adopt_receipt a (bump state) key "committed AgentRun terminal receipt cannot be reloaded"
            (commit_agent_run_receipt a.store record_ receipt (some (bump state)) (event ∷ [])
              ((receipt_key "agent-result:" record_.agent_run_id, result_object) ∷ []))
    ]

abbrev is_stored_receipt : Option AgentRunReceipt → AgentRunReceipt → Bool
is_stored_receipt none receipt = false
is_stored_receipt (some stored) receipt = same_receipt stored receipt

abbrev is_stored_record : Option AgentRun → AgentRun → Bool
is_stored_record none record_ = false
is_stored_record (some stored) record_ = same_record stored record_

-- `_validate_agent_run_terminal_replay`
unfoldable pub is_terminal_replay :
    RunActor → String → AgentRun → AgentRunReceipt → CasObject → Bool
unfolding receipt_key
is_terminal_replay a key record_ receipt result_object =
    is_stored_record (get record_.agent_run_id a.store.agent_runs) record_
    && is_stored_receipt (get record_.agent_run_id a.store.agent_receipts) receipt
    && refers_to
        (get_cas_reference a.store "run" a.run_id
          (receipt_key "agent-result:" record_.agent_run_id))
        result_object
    && receipt.category == "session.terminal"
    && key == receipt_key "agent_run.terminal:" record_.agent_run_id

-- The completion of the plan's agent, and the frozen plan: its hash, the digest of its canonical
-- payload, and whether its validation accepted it.
pub record PlanAcceptance : Type 0 where
  pub run : AgentRun
  pub receipt : AgentRunReceipt
  pub result_object : CasObject
  pub plan_object : CasObject
  pub plan_hash : String
  pub payload_digest : String
  pub accepted : Bool

abbrev is_closed : SessionState → Bool
is_closed state = session_state_value state == "CLOSED"

unfoldable pub may_accept : RunActor → RunState → PlanAcceptance → Bool
may_accept a state p =
    state.status == planning
    && p.run.owner_kind == "run"
    && p.run.owner_id == a.run_id
    && phase_value p.run.phase == "PLAN"
    && session_kind_value p.run.session_kind == "PLAN_AUXILIARY"
    && is_closed p.run.state
    && is_exit_completed p.run.exit
    && p.receipt.agent_run_id == p.run.agent_run_id
    && p.receipt.category == "plan.accepted"
    && p.run.result_sha256 == some p.result_object.digest
    && has_agent_run_event (events_of (load a.store a.run_id)) "agent_run.started"
        p.run.agent_run_id
    && p.payload_digest == p.plan_object.digest
    && p.accepted
  where
    is_exit_completed : Option SessionExit → Bool
    is_exit_completed none = false
    is_exit_completed (some e) = exit_value e == "COMPLETED"

unfoldable pub accepted_next : RunState → String → RunState
accepted_next state plan_hash = record state {
  status = executing;
  frozen_plan_sha256 = some plan_hash;
  version = suc state.version;
}

-- `_accept_plan`
unfoldable pub accept_plan : RunActor → RunState → String → PlanAcceptance → Handled
unfolding adopt_receipt accepted_next receipt_key
accept_plan a state key p =
    let next = accepted_next state p.plan_hash in
    if not (may_accept a state p)
    then raise_error a "PLAN acceptance facts failed deterministic owner checks"
    else elim (terminal_spec p.run p.receipt) [
      | err error ↦ raise_error a error
      | ok event ↦ adopt_receipt a next key "committed PLAN owner receipt cannot be reloaded" (
          commit_agent_run_receipt a.store p.run p.receipt (some next)
            (event
              ∷ spec "run.plan.accepted" (
                  ("receipt_key", text key)
                  ∷ ("agent_run_id", text p.run.agent_run_id)
                  ∷ ("plan_sha256", text p.plan_hash)
                  ∷ [])
              ∷ run_status_changed_event next
              ∷ [])
            ((receipt_key "agent-result:" p.run.agent_run_id, p.result_object)
              ∷ ("frozen-plan", p.plan_object)
              ∷ []))
    ]

pub record VerificationSummary : Type 0 where
  pub passed : Bool
  pub result_sha256 : String

unfoldable pub commit_verification : RunActor → RunState → String → VerificationSummary → Handled
unfolding after_commit
commit_verification a state key result =
    if not (state.status == verifying)
    then raise_error a "VERIFY requires deterministic verification facts"
    else after_commit
        (commit a (record state { status = reporting; version = suc state.version })
          (spec "run.verify.completed" (
              ("receipt_key", text key)
              ∷ ("passed", flag result.passed)
              ∷ ("result_sha256", text result.result_sha256)
              ∷ [])
            ∷ []))
        key "VERIFY actor receipt could not be committed" ""

-- The two statuses that `ReportSummary` accepts.
pub data ReportStatus : Type 0 where
  report_completed : ReportStatus
  report_partial : ReportStatus

abbrev pub status_of_report : ReportStatus → RunStatus
status_of_report report_completed = completed
status_of_report report_partial = partially_completed

pub record ReportSummary : Type 0 where
  pub result_sha256 : String
  pub status : ReportStatus

unfoldable pub commit_report : RunActor → RunState → String → ReportSummary → Handled
unfolding after_commit
commit_report a state key result =
    if not (state.status == reporting)
    then raise_error a "REPORT requires deterministic report facts"
    else after_commit
        (commit a
          (record state { status = status_of_report result.status; version = suc state.version })
          (spec "run.report.completed" (
              ("receipt_key", text key)
              ∷ ("status", text (status_value (status_of_report result.status)))
              ∷ ("result_sha256", text result.result_sha256)
              ∷ [])
            ∷ []))
        key "REPORT actor receipt could not be committed" ""
