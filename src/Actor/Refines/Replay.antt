-- ===== src/Actor/Refines/Replay.antt =====
-- runtime/actor.py: a workflow command that is delivered again.
use code_migrator.Base.{
  string_eq, nat_eq, String, ◌≡◌, refl, sym, ap, ◌∙◌, subst, Bool, true, false, not, Option, none,
  some, ◌==◌, arith, eq_iff, Result, ok, err, if_cases, option_cases, result_cases, get,
}
use code_migrator.Actor.Status.{status_eq, verifying, reporting}
use code_migrator.Actor.Events.{
  RuntimeEvent, ActorPhaseReceipt, event_for_receipt, actor_phase_receipt,
}
use code_migrator.Actor.State.{RunState, RuntimeSnapshot}
use code_migrator.Actor.AgentRuns.{AgentRunReceipt, started_spec, terminal_spec}
use code_migrator.Actor.Store.{Outcome, load, events_of}
use code_migrator.Actor.Intents.{intent_eq}
use code_migrator.Actor.Core.{RunActor, Handled, respond_receipt, phase_receipt, raise_error}
use code_migrator.Actor.Workflow.{
  PlanAcceptance, VerificationSummary, ReportSummary, after_commit, may_start, start_agent_run,
  record_agent_run_started, adopt_receipt, may_accept, accept_plan, commit_verification,
  commit_report,
}
use code_migrator.Actor.Mailbox.{
  Command, replay_error, replay, reduce_command, with_facts, handle_workflow_command,
  accept_plan_command, execute_round, agent_run_started, agent_run_terminal, integration_intent,
  integration_completed, verification, report,
}
use code_migrator.Actor.Transition.{log}

-- A receipt in a response is the one of the event that the log has for the key.
abbrev Evidenced : String → Handled → Type 0
Evidenced key (b, phase_receipt p) =
    (e : RuntimeEvent) × (event_for_receipt (log b) key ≡ some e)
    × (actor_phase_receipt b.run_id key e.sequence ≡ ok p)
Evidenced key (b, _) = Unit

respond-Evidenced :
    (a : RunActor) (key missing : String) → Evidenced key (respond_receipt a key missing)
unfolding respond_receipt
respond-Evidenced a key missing =
    option_cases (Evidenced key) (event_for_receipt (events_of (load a.store a.run_id)) key)
      (λ e. tt)
      (λ event e.
        result_cases (Evidenced key) (actor_phase_receipt a.run_id key event.sequence)
          (λ receipt k. (event, e, k)) (λ error k. tt))

after_commit-Evidenced :
    (r : RunActor × Bool) (key failure missing : String)
    → Evidenced key (after_commit r key failure missing)
unfolding after_commit
after_commit-Evidenced (b, false) key failure missing = tt
after_commit-Evidenced (b, true) key failure missing = respond-Evidenced b key missing

adopt_receipt-Evidenced :
    (a : RunActor) (t : RunState) (key missing : String) (o : Outcome AgentRunReceipt)
    → Evidenced key (adopt_receipt a t key missing o)
unfolding adopt_receipt
adopt_receipt-Evidenced a t key missing (store, err error) = tt
adopt_receipt-Evidenced a t key missing (store, ok receipt) =
    respond-Evidenced (record a { store = store; state = some t }) key missing

started-Evidenced :
    (a : RunActor) (s : RunState) (key id : String)
    → Evidenced key (record_agent_run_started a s key id)
unfolding record_agent_run_started start_agent_run
started-Evidenced a s key id =
    option_cases (Evidenced key) (get id a.store.agent_runs) (λ e. tt)
      (λ r e.
        if_cases (Evidenced key) (not (may_start a s r)) (λ k. tt)
          (λ k.
            result_cases (Evidenced key) (started_spec r)
              (λ event l. after_commit-Evidenced _ key _ _) (λ error l. tt)))

accept_plan-Evidenced :
    (a : RunActor) (s : RunState) (key : String) (p : PlanAcceptance)
    → Evidenced key (accept_plan a s key p)
unfolding accept_plan
accept_plan-Evidenced a s key p =
    if_cases (Evidenced key) (not (may_accept a s p)) (λ e. tt)
      (λ e.
        result_cases (Evidenced key) (terminal_spec p.run p.receipt)
          (λ event k. adopt_receipt-Evidenced a _ key _ _) (λ error k. tt))

verification-Evidenced :
    (a : RunActor) (s : RunState) (key : String) (result : VerificationSummary)
    → Evidenced key (commit_verification a s key result)
unfolding commit_verification
verification-Evidenced a s key result =
    if_cases (Evidenced key) (not (s.status == verifying)) (λ e. tt)
      (λ e. after_commit-Evidenced _ key _ _)

report-Evidenced :
    (a : RunActor) (s : RunState) (key : String) (result : ReportSummary)
    → Evidenced key (commit_report a s key result)
unfolding commit_report
report-Evidenced a s key result =
    if_cases (Evidenced key) (not (s.status == reporting)) (λ e. tt)
      (λ e. after_commit-Evidenced _ key _ _)

-- The commands that are answered with a receipt and replayed without a check of their payload.
abbrev pub is_plain : Command → Bool
is_plain (accept_plan_command p) = true
is_plain (agent_run_started id) = true
is_plain (verification result) = true
is_plain (report result) = true
is_plain _ = false

reduce-Evidenced :
    (a : RunActor) (s : RunState) (key : String) (c : Command)
    → is_plain c ≡ true
    → Evidenced key (reduce_command a s key c)
unfolding reduce_command
reduce-Evidenced a s key (accept_plan_command p) plain = accept_plan-Evidenced a s key p
reduce-Evidenced a s key (agent_run_started id) plain = started-Evidenced a s key id
reduce-Evidenced a s key (verification result) plain = verification-Evidenced a s key result
reduce-Evidenced a s key (report result) plain = report-Evidenced a s key result
reduce-Evidenced a s key execute_round plain = absurd (ground arith)
reduce-Evidenced a s key (agent_run_terminal r x y) plain = absurd (ground arith)
reduce-Evidenced a s key (integration_intent i) plain = absurd (ground arith)
reduce-Evidenced a s key (integration_completed i oid) plain = absurd (ground arith)

with_facts-Evidenced :
    (a : RunActor) (key : String) (c : Command) (o : Option RunState) (p : Option RuntimeSnapshot)
    → is_plain c ≡ true
    → Evidenced key (with_facts a key c o p)
with_facts-Evidenced a key c none p plain = tt
with_facts-Evidenced a key c (some s) none plain = tt
with_facts-Evidenced a key c (some s) (some p) plain = reduce-Evidenced a s key c plain

-- The answer to a command by the receipt that its event makes.
abbrev with_receipt : RunActor → Result String ActorPhaseReceipt → Handled
with_receipt a (ok p) = (a, phase_receipt p)
with_receipt a (err error) = raise_error a error

replay-plain :
    (a : RunActor) (key : String) (e : RuntimeEvent) (c : Command)
    → is_plain c ≡ true
    → replay a key e c ≡ with_receipt a (actor_phase_receipt a.run_id key e.sequence)
unfolding replay replay_error
replay-plain a key e (accept_plan_command x) plain = refl
replay-plain a key e (agent_run_started id) plain = refl
replay-plain a key e (verification result) plain = refl
replay-plain a key e (report result) plain = refl
replay-plain a key e execute_round plain = absurd (ground arith)
replay-plain a key e (agent_run_terminal r x y) plain = absurd (ground arith)
replay-plain a key e (integration_intent i) plain = absurd (ground arith)
replay-plain a key e (integration_completed i oid) plain = absurd (ground arith)

with_receipt-Evidenced :
    (a : RunActor) (key : String) (e : RuntimeEvent) (r : Result String ActorPhaseReceipt)
    → event_for_receipt (log a) key ≡ some e
    → actor_phase_receipt a.run_id key e.sequence ≡ r
    → Evidenced key (with_receipt a r)
with_receipt-Evidenced a key e (ok p) found made = (e, found, made)
with_receipt-Evidenced a key e (err error) found made = tt

command-Evidenced :
    (a : RunActor) (run_id key : String) (c : Command)
    → is_plain c ≡ true
    → Evidenced key (handle_workflow_command a run_id key c)
unfolding handle_workflow_command
command-Evidenced a run_id key c plain =
    if_cases (Evidenced key) (not (run_id == a.run_id)) (λ e. tt)
      (λ e.
        option_cases (Evidenced key) (event_for_receipt (events_of (load a.store a.run_id)) key)
          (λ k. with_facts-Evidenced a key c a.state (load a.store a.run_id) plain)
          (λ event k.
            subst (Evidenced key) (sym (replay-plain a key event c plain))
              (with_receipt-Evidenced a key event _ k refl)))

again :
    (a : RunActor) (key : String) (c : Command) (p : ActorPhaseReceipt) (e : RuntimeEvent)
    → is_plain c ≡ true
    → event_for_receipt (log a) key ≡ some e
    → actor_phase_receipt a.run_id key e.sequence ≡ ok p
    → handle_workflow_command a a.run_id key c ≡ (a, phase_receipt p)
unfolding handle_workflow_command
again a key c p e plain found made =
    if_cases (λ (h : Handled). h ≡ (a, phase_receipt p)) (not (a.run_id == a.run_id))
      (λ k. absurd (ground (arith, eq_iff a.run_id a.run_id)))
      (λ k.
        option_cases (λ (h : Handled). h ≡ (a, phase_receipt p))
          (event_for_receipt (events_of (load a.store a.run_id)) key) (λ l. absurd (ground arith))
          (λ event l.
            let same : event ≡ e = ground arith in
            replay-plain a key event c plain
            ∙ ap
                (λ (x : RuntimeEvent). with_receipt a (actor_phase_receipt a.run_id key x.sequence))
                same
            ∙ ap (with_receipt a) made))

answered :
    (h : Handled) (key : String) (c : Command) (p : ActorPhaseReceipt)
    → is_plain c ≡ true
    → Evidenced key h
    → h.1 ≡ phase_receipt p
    → handle_workflow_command h.0 h.0.run_id key c ≡ (h.0, phase_receipt p)
answered (b, phase_receipt q) key c p plain (e, found, made) h =
    let same : q ≡ p = ground arith in again b key c p e plain found (made ∙ ap ok same)
answered (b, _) key c p plain evidence h = absurd (ground arith)

-- An acceptance of a plan, a start of an agent run, a verification or a report that was answered with
-- a receipt is, delivered once more to the actor that it left, answered with the same receipt, and
-- changes nothing.
pub command-repeats :
    (a : RunActor) (run_id key : String) (c : Command) (p : ActorPhaseReceipt)
    → is_plain c ≡ true
    → (handle_workflow_command a run_id key c).1 ≡ phase_receipt p
    → handle_workflow_command
        (handle_workflow_command a run_id key c).0
        (handle_workflow_command a run_id key c).0.run_id
        key
        c
      ≡ ((handle_workflow_command a run_id key c).0, phase_receipt p)
command-repeats a run_id key c p plain done =
    answered (handle_workflow_command a run_id key c) key c p plain
      (command-Evidenced a run_id key c plain) done
