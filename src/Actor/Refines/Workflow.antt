-- ===== src/Actor/Refines/Workflow.antt =====
-- runtime/actor.py: the workflow commands refine the transitions.
use code_migrator.Base.{
  string_eq, nat_eq, option_eq, ◌+◌, String, ◌≡◌, refl, sym, ap, ◌∙◌, subst, Bool, true, false, not,
  none, some, List, [], ◌∷◌, ◌==◌, arith, eq_iff, ok, err, if_cases, option_cases, result_cases,
  get, length,
}
use code_migrator.Actor.Status.{status_eq, planning, executing, verifying, reporting}
use code_migrator.Actor.Events.{EventSpec, event_for_receipt, actor_phase_receipt}
use code_migrator.Actor.State.{RunState}
use code_migrator.Actor.AgentRuns.{AgentRun, AgentRunReceipt, started_spec, terminal_spec}
use code_migrator.Actor.Store.{Outcome, CasObject, load, events_of}
use code_migrator.Actor.Core.{
  RunActor, Handled, respond_receipt, raise_error, run_status_changed_event,
}
use code_migrator.Actor.Workflow.{
  PlanAcceptance, VerificationSummary, ReportSummary, bump, after_commit, may_start,
  start_agent_run, record_agent_run_started, may_end, adopt_receipt, record_agent_run_terminal,
  may_accept, accepted_next, accept_plan, commit_verification, commit_report,
}
use code_migrator.Actor.Mailbox.{
  Message, accept_plan_command, agent_run_started, agent_run_terminal, verification, report,
  workflow_command,
}
use code_migrator.Actor.Meaning.{
  Meant, announced, plan_acceptance, run_start, run_end, verdict, final_report,
}
use code_migrator.Actor.Ledger.{
  given_types, logged_types, materialize-Numbered, materialize-logged_types,
}
use code_migrator.Actor.LedgerReceipts.{ReceiptWritesOr, agent_receipt-ReceiptWritesOr}
use code_migrator.Actor.Transition.{
  Transition, Step, Same, Evolves, bumps, accepts, verifies, reports, keeps, writes, moves, log,
  Step-Same, commit-Step,
}
use code_migrator.Actor.Refines.Inputs.{StepsTo}

pub raise_error-Step :
    {m : Message} (a : RunActor) (error : String) → StepsTo m a (raise_error a error)
raise_error-Step a error = keeps refl refl refl

pub respond_receipt-Same :
    (a : RunActor) (key missing : String) → Same a (respond_receipt a key missing).0
unfolding respond_receipt
respond_receipt-Same a key missing =
    let P : Handled → Type 0 = λ h. Same a h.0 in
    option_cases P (event_for_receipt (events_of (load a.store a.run_id)) key)
      (λ e. (refl, refl, refl))
      (λ event e.
        result_cases P (actor_phase_receipt a.run_id key event.sequence)
          (λ receipt k. (refl, refl, refl)) (λ error k. (refl, refl, refl)))

after_commit-Step :
    {m : Message} (a : RunActor) (r : RunActor × Bool) (key failure missing : String)
    → Step m a r.0
    → StepsTo m a (after_commit r key failure missing)
unfolding after_commit
after_commit-Step a (b, false) key failure missing step = Step-Same a b _ (refl, refl, refl) step
after_commit-Step a (b, true) key failure missing step =
    Step-Same a b _ (respond_receipt-Same b key missing) step

started_spec-type :
    (r : AgentRun) (event : EventSpec)
    → started_spec r ≡ ok event
    → event.event_type ≡ "agent_run.started"
unfolding started_spec
started_spec-type r event h = ground arith

terminal_spec-type :
    (r : AgentRun) (receipt : AgentRunReceipt) (event : EventSpec)
    → terminal_spec r receipt ≡ ok event
    → event.event_type ≡ "agent_run.terminal"
unfolding terminal_spec
terminal_spec-type r receipt event h = ground arith

start_agent_run-Step :
    (a : RunActor) (s : RunState) (run_id key id : String) (r : AgentRun)
    → a.state ≡ some s
    → s.run_id ≡ a.run_id
    → StepsTo (workflow_command run_id key (agent_run_started id)) a (start_agent_run a s key r)
unfolding start_agent_run
start_agent_run-Step a s run_id key id r known owned =
    if_cases (StepsTo _ a) (not (may_start a s r)) (λ e. raise_error-Step a _)
      (λ e.
        result_cases (StepsTo _ a) (started_spec r)
          (λ event k. after_commit-Step a _ key _ _ (
            commit-Step a s (bump s) (event ∷ []) known owned refl bumps (
              subst
                (λ t.
                  Meant (workflow_command run_id key (agent_run_started id)) (some s) (bump s)
                    (announced s.status s.status (t ∷ [])))
                (sym (started_spec-type r event k)) (run_start run_id key id))))
          (λ error k. raise_error-Step a error))

pub record_agent_run_started-Step :
    (a : RunActor) (s : RunState) (run_id key id : String)
    → a.state ≡ some s
    → s.run_id ≡ a.run_id
    → StepsTo
        (workflow_command run_id key (agent_run_started id))
        a
        (record_agent_run_started a s key id)
unfolding record_agent_run_started
record_agent_run_started-Step a s run_id key id known owned =
    option_cases (StepsTo _ a) (get id a.store.agent_runs) (λ e. raise_error-Step a _)
      (λ r e. start_agent_run-Step a s run_id key id r known owned)

adopt_receipt-Step :
    {m : Message} (a : RunActor) (s t : RunState) (key missing : String) (events : List EventSpec)
    (o : Outcome AgentRunReceipt)
    → a.state ≡ some s
    → s.run_id ≡ a.run_id
    → t.run_id ≡ s.run_id
    → Transition s t
    → Meant m (some s) t (given_types events)
    → ReceiptWritesOr a.store t.run_id t events o
    → StepsTo m a (adopt_receipt a t key missing o)
unfolding adopt_receipt load
adopt_receipt-Step a s t key missing events (store, err error) known owned same change means kept =
    keeps refl refl (ap (get a.run_id) kept)
adopt_receipt-Step {m = m} a s t key missing events (store, ok receipt) known owned same change
      means wrote =
    let adopted : RunActor = record a { store = store; state = some t } in
    let there =
      subst (λ r. ReceiptWritesOr a.store r t events (store, ok receipt)) (same ∙ owned) wrote in
    Step-Same a adopted _ (respond_receipt-Same adopted key missing) (
      writes t there.0 refl (same ∙ owned) refl
        (subst (λ o. Evolves a.run_id o t) (sym known) (moves change))
        (materialize-Numbered a.store.secret_registry (length (log a) + 1) events there.0 there.1)
        there.2
        (subst (λ o. Meant m o t (logged_types there.0)) (sym known)
          (subst (Meant m (some s) t)
            (sym (
              materialize-logged_types a.store.secret_registry (length (log a) + 1) events there.0
                there.1))
            means)))

may_end-owner :
    (a : RunActor) (s : RunState) (key : String) (r : AgentRun) (receipt : AgentRunReceipt)
    (object : CasObject)
    → may_end a s key r receipt object ≡ true
    → (r.owner_id ≡ a.run_id) × (s.status ≡ executing)
unfolding may_end
may_end-owner a s key r receipt object h = (
  ground (arith, eq_iff r.owner_id a.run_id),
  (status_eq.equals_iff s.status executing).0 (ground arith),
)

pub record_agent_run_terminal-Step :
    (a : RunActor) (s : RunState) (run_id key : String) (r : AgentRun) (receipt : AgentRunReceipt)
    (object : CasObject)
    → a.state ≡ some s
    → s.run_id ≡ a.run_id
    → get r.agent_run_id a.store.agent_receipts ≡ none
    → StepsTo
        (workflow_command run_id key (agent_run_terminal r receipt object))
        a
        (record_agent_run_terminal a s key r receipt object)
unfolding record_agent_run_terminal
record_agent_run_terminal-Step a s run_id key r receipt object known owned fresh =
    if_cases (StepsTo _ a) (not (may_end a s key r receipt object)) (λ e. raise_error-Step a _)
      (λ e.
        let (mine, runs) = may_end-owner a s key r receipt object (ground arith) in
        result_cases (StepsTo _ a) (terminal_spec r receipt)
          (λ event k.
            adopt_receipt-Step a s (bump s) key _ _ _ known owned refl bumps
              (subst
                (λ t.
                  Meant (workflow_command run_id key (agent_run_terminal r receipt object)) (some s)
                    (bump s) (t ∷ []))
                (sym (terminal_spec-type r receipt event k))
                (run_end run_id key r receipt object runs))
              (agent_receipt-ReceiptWritesOr a.store r receipt (bump s) (event ∷ []) _
                (mine ∙ sym owned) fresh))
          (λ error k. raise_error-Step a error))

may_accept-owner :
    (a : RunActor) (s : RunState) (p : PlanAcceptance)
    → may_accept a s p ≡ true
    → (p.run.owner_id ≡ a.run_id) × (s.status ≡ planning)
unfolding may_accept
may_accept-owner a s p h = (
  ground (arith, eq_iff p.run.owner_id a.run_id),
  (status_eq.equals_iff s.status planning).0 (ground arith),
)

pub accept_plan-Step :
    (a : RunActor) (s : RunState) (run_id key : String) (p : PlanAcceptance)
    → a.state ≡ some s
    → s.run_id ≡ a.run_id
    → get p.run.agent_run_id a.store.agent_receipts ≡ none
    → StepsTo (workflow_command run_id key (accept_plan_command p)) a (accept_plan a s key p)
unfolding accept_plan accepted_next run_status_changed_event
accept_plan-Step a s run_id key p known owned fresh =
    if_cases (StepsTo _ a) (not (may_accept a s p)) (λ e. raise_error-Step a _)
      (λ e.
        let (mine, waits) = may_accept-owner a s p (ground arith) in
        result_cases (StepsTo _ a) (terminal_spec p.run p.receipt)
          (λ event k.
            adopt_receipt-Step a s (accepted_next s p.plan_hash) key _ _ _ known owned refl
              (accepts p.plan_hash waits)
              (subst
                (λ t.
                  Meant (workflow_command run_id key (accept_plan_command p)) (some s)
                    (accepted_next s p.plan_hash)
                    (t ∷ "run.plan.accepted" ∷ "run.status_changed" ∷ []))
                (sym (terminal_spec-type p.run p.receipt event k))
                (plan_acceptance run_id key p waits))
              (agent_receipt-ReceiptWritesOr a.store p.run p.receipt (accepted_next s p.plan_hash) _
                _ (mine ∙ sym owned) fresh))
          (λ error k. raise_error-Step a error))

pub commit_verification-Step :
    (a : RunActor) (s : RunState) (run_id key : String) (result : VerificationSummary)
    → a.state ≡ some s
    → s.run_id ≡ a.run_id
    → StepsTo
        (workflow_command run_id key (verification result))
        a
        (commit_verification a s key result)
unfolding commit_verification
commit_verification-Step a s run_id key result known owned =
    if_cases (StepsTo _ a) (not (s.status == verifying)) (λ e. raise_error-Step a _)
      (λ e. after_commit-Step a _ key _ _ (
        commit-Step a s _ _ known owned refl
          (verifies ((status_eq.equals_iff s.status verifying).0 (ground arith)))
          (verdict run_id key result ((status_eq.equals_iff s.status verifying).0 (ground arith)))))

pub commit_report-Step :
    (a : RunActor) (s : RunState) (run_id key : String) (result : ReportSummary)
    → a.state ≡ some s
    → s.run_id ≡ a.run_id
    → StepsTo (workflow_command run_id key (report result)) a (commit_report a s key result)
unfolding commit_report
commit_report-Step a s run_id key result known owned =
    if_cases (StepsTo _ a) (not (s.status == reporting)) (λ e. raise_error-Step a _)
      (λ e. after_commit-Step a _ key _ _ (
        commit-Step a s _ _ known owned refl
          (reports result.status ((status_eq.equals_iff s.status reporting).0 (ground arith)))
          (final_report run_id key result
            ((status_eq.equals_iff s.status reporting).0 (ground arith)))))
