-- ===== src/Actor/Refines/Rounds.antt =====
-- runtime/actor.py: the rounds of EXECUTE refine the transitions.
use code_migrator.Base.{
  string_eq, nat_eq, String, ◌≡◌, refl, ap, ◌∙◌, ◌++◌, [], ◌∷◌, Bool, true, false, not, ◌&&◌, some,
  List, ◌==◌, arith, Result, ok, err, if_cases, option_cases, result_cases, contains,
}
use code_migrator.Integration.{is_some}
use code_migrator.Actor.Status.{status_eq, executing}
use code_migrator.Actor.Events.{EventSpec}
use code_migrator.Actor.State.{RunState}
use code_migrator.Actor.Core.{RunActor}
use code_migrator.Actor.Candidates.{CandidateVerifier}
use code_migrator.Actor.Rounds.{
  ExecutionRoundDecision, RoundOutcome, Accepted, schedule_execution_round, finish_execution_round,
  is_claim_set_complete, terminal_events, accept_claims, round_next, after_round, commit_accepted,
  commit_execution_round, handle_round_finished, after_decision,
}
use code_migrator.Actor.Mailbox.{Message, round_finished}
use code_migrator.Actor.Meaning.{round_end}
use code_migrator.Actor.Ledger.{given_types, given_types-append}
use code_migrator.Actor.Transition.{
  Step, IsCoherent, ends_round, keeps, Step-refl, Step-Same, commit-Step, coherent-owned,
}
use code_migrator.Actor.Refines.Inputs.{StepsTo}
use code_migrator.Actor.Refines.Workflow.{raise_error-Step}

pub schedule_execution_round-Step :
    {m : Message} (a : RunActor) (s : RunState) (key : String)
    → StepsTo m a (schedule_execution_round a s key)
unfolding schedule_execution_round
schedule_execution_round-Step a s key =
    if_cases (StepsTo _ a)
      (not (s.status == executing && is_some s.frozen_plan_sha256 && a.has_execution_scheduler))
      (λ e. raise_error-Step a _)
      (λ e.
        if_cases (StepsTo _ a) (contains key a.execution_round_tasks) (λ e. keeps refl refl refl)
          (λ e. keeps refl refl refl))

abbrev RoundStep : Message → RunActor → RoundOutcome → Type 0
RoundStep m a outcome = Step m a outcome.0

after_round-Step :
    {m : Message} (a : RunActor) (r : RunActor × Bool) (key : String) (complete : Bool)
    → Step m a r.0
    → RoundStep m a (after_round r key complete)
unfolding after_round
after_round-Step a (b, false) key complete step = step
after_round-Step a (b, true) key complete step = step

round-types :
    (terminal events : List EventSpec) (last : EventSpec)
    → given_types (terminal ++ events ++ last ∷ [])
      ≡ (given_types terminal ++ given_types events) ++ last.event_type ∷ []
round-types terminal events last =
    given_types-append (terminal ++ events) (last ∷ [])
    ∙ ap (λ t. t ++ last.event_type ∷ []) (given_types-append terminal events)

commit_accepted-Step :
    (a : RunActor) (s : RunState) (key : String) (d : ExecutionRoundDecision)
    (terminal : List EventSpec) (accepted : Accepted)
    → a.state ≡ some s
    → s.run_id ≡ a.run_id
    → s.status ≡ executing
    → is_some s.frozen_plan_sha256 ≡ true
    → RoundStep (round_finished key (ok d)) a (commit_accepted a s key d terminal accepted)
unfolding commit_accepted round_next
commit_accepted-Step a s key d terminal (facts, events) known owned runs frozen =
    after_round-Step a _ key d.complete (
      commit-Step a s (round_next s d.complete facts) _ known owned refl
        (ends_round d.complete facts runs frozen)
        (round_end key d facts (given_types terminal ++ given_types events) _ runs frozen
          (round-types terminal events _)))

commit_execution_round-Step :
    (a : RunActor) (v : CandidateVerifier) (s : RunState) (key : String)
    (d : ExecutionRoundDecision)
    → a.state ≡ some s
    → s.run_id ≡ a.run_id
    → RoundStep (round_finished key (ok d)) a (commit_execution_round a v s key d)
unfolding commit_execution_round
commit_execution_round-Step a v s key d known owned =
    if_cases (RoundStep _ a) (not (s.status == executing && is_some s.frozen_plan_sha256))
      (λ e. Step-refl a)
      (λ e.
        if_cases (RoundStep _ a) (not (is_claim_set_complete d)) (λ k. Step-refl a)
          (λ k.
            result_cases (RoundStep _ a) (terminal_events a d.terminal_agent_run_ids)
              (λ terminal l.
                result_cases (RoundStep _ a)
                  (accept_claims a v d.candidate_claims (s.candidate_checkpoints, []))
                  (λ accepted m.
                    commit_accepted-Step a s key d terminal accepted known owned
                      ((status_eq.equals_iff s.status executing).0 (ground arith)) (ground arith))
                  (λ error m. Step-refl a))
              (λ error l. Step-refl a)))

after_decision-Step :
    {m : Message} (a : RunActor) (o : RoundOutcome) (key : String)
    → RoundStep m a o
    → StepsTo m a (after_decision o key)
unfolding finish_execution_round
after_decision-Step a (b, result) key step = Step-Same a b _ (refl, refl, refl) step

pub handle_round_finished-Step :
    (a : RunActor) (v : CandidateVerifier) (key : String)
    (decision : Result String ExecutionRoundDecision)
    → IsCoherent a
    → StepsTo (round_finished key decision) a (handle_round_finished a v key decision)
unfolding handle_round_finished finish_execution_round
handle_round_finished-Step a v key (err error) h = keeps refl refl refl
handle_round_finished-Step a v key (ok d) h =
    option_cases (StepsTo _ a) a.state (λ e. keeps refl refl refl)
      (λ s known.
        after_decision-Step a (commit_execution_round a v s key d) key
          (commit_execution_round-Step a v s key d known (coherent-owned a s h known)))
