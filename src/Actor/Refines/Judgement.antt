-- ===== src/Actor/Refines/Judgement.antt =====
-- runtime/actor.py: dispatches, budget events, recovery and advice refine the transitions.
use code_migrator.Base.{
  string_eq, nat_eq, pair_eq, String, ◌≡◌, refl, sym, ◌∙◌, subst, Bool, true, false, not, ◌&&◌,
  ◌||◌, Option, some, List, [], ◌∷◌, ◌++◌, ◌==◌, arith, if_cases, option_cases, any, contains,
  if◌then◌else◌,
}
use code_migrator.Wallet.Account.{Amounts, sum, evaluate_budget}
use code_migrator.Actor.Status.{is_terminal}
use code_migrator.Actor.Events.{EventSpec}
use code_migrator.Actor.State.{RunState, ActiveDispatch, dispatch_eq}
use code_migrator.Actor.Advice.{
  Advice, AdviceDisposition, auto_adopted, confirmation_required, discarded, evaluate_advice,
}
use code_migrator.Actor.Core.{
  RunActor, commit, commit_only, call_port, write_checkpoint, archive_candidates, dispatch_adopted,
}
use code_migrator.Actor.Dispatches.{
  has_key, start_next, after_start, start_dispatch, find_active, is_active, finish_next,
  finish_dispatch, handle_execution, accept,
}
use code_migrator.Actor.Budget.{Breaker, usage_next, exhausted_next, exhaust, handle_budget}
use code_migrator.Actor.Judgement.{
  RecoveryCommand, recovery_trigger, recovery_next, recover, trigger, handle_recovery, Reduction,
  reduce_advice, after_advice, is_repair_decision, handle_advice, advice_event,
}
use code_migrator.Actor.Mailbox.{Message, execution_receipt, budget_event, recovery, advice}
use code_migrator.Actor.Meaning.{
  Meant, announced, foreign_result, late_result, dispatching, completion, spending, exhaustion,
  recovered, adoption, wait_for_confirmation, repeated_advice, discarded_advice,
}
use code_migrator.Actor.Ledger.{given_types}
use code_migrator.Actor.Transition.{
  Transition, Step, Same, IsCoherent, records, advises, starts, finishes, spends, exhausts,
  recovers, Step-refl, Step-Same, call_port-Same, commit-Step, coherent-owned, keeps, Same-Step,
}
use code_migrator.Actor.Refines.Inputs.{StepsTo}
use code_migrator.Actor.Refines.Types.{
  port_failed-types, exhausted-types, warned-types, recovery-types,
}

accept-Step :
    {m : Message} (a b : RunActor) (accepted : Bool) → Step m a b → StepsTo m a (accept b accepted)
accept-Step a b accepted step = Step-Same a b _ (refl, refl, refl) step

after_start-Step :
    {m : Message} (a : RunActor) (r : RunActor × Bool) → Step m a r.0 → StepsTo m a (after_start r)
after_start-Step a (b, committed) step = accept-Step a b committed step

start_dispatch-Step :
    (a : RunActor) (s : RunState) (run_id : String) (d : ActiveDispatch) (status : Option String)
    → a.state ≡ some s
    → s.run_id ≡ a.run_id
    → is_terminal s.status ≡ false
    → StepsTo (execution_receipt run_id d status true) a (start_dispatch a s d)
unfolding start_dispatch start_next
start_dispatch-Step a s run_id d status known owned live =
    if_cases (StepsTo _ a) (s.cancel_requested || not s.new_calls_enabled)
      (λ e. accept-Step a a false (Step-refl a))
      (λ e.
        if_cases (StepsTo _ a) (any (has_key d a.run_id) s.active_dispatches)
          (λ k. accept-Step a a false (Step-refl a))
          (λ k.
            let fresh : any (has_key d s.run_id) s.active_dispatches ≡ false =
              subst (λ r. any (has_key d r) s.active_dispatches ≡ false) (sym owned) k in
            after_start-Step a _ (
              commit-Step a s (start_next s d) _ known owned refl
                (starts d live (ground arith) (ground arith) fresh)
                (dispatching run_id d status live (ground arith) (ground arith) fresh))))

finish_dispatch-Step :
    (a : RunActor) (s : RunState) (run_id : String) (d : ActiveDispatch) (status : Option String)
    → a.state ≡ some s
    → s.run_id ≡ a.run_id
    → StepsTo (execution_receipt run_id d status false) a (finish_dispatch a s d status)
unfolding finish_dispatch finish_next
finish_dispatch-Step a s run_id d status known owned =
    let is_here : String → Bool =
      λ r. is_active (find_active (has_key d r) s.active_dispatches) d in
    if_cases (StepsTo _ a) (not (is_here a.run_id))
      (λ e.
        let late : is_here s.run_id ≡ false =
          subst (λ r. is_here r ≡ false) (sym owned) (ground arith) in
        accept-Step a _ false
          (commit-Step a s s _ known owned refl records (late_result run_id d status late)))
      (λ e.
        let flies : is_here s.run_id ≡ true =
          subst (λ r. is_here r ≡ true) (sym owned) (ground arith) in
        accept-Step a _ true (
          commit-Step a s (finish_next s d) _ known owned refl (finishes d)
            (completion run_id d status flies)))

pub handle_execution-Step :
    (a : RunActor) (run_id : String) (d : ActiveDispatch) (status : Option String) (started : Bool)
    → IsCoherent a
    → StepsTo
        (execution_receipt run_id d status started)
        a
        (handle_execution a run_id d status started)
unfolding handle_execution
handle_execution-Step a run_id d status true h =
    option_cases (StepsTo _ a) a.state (λ e. accept-Step a a false (Step-refl a))
      (λ s known.
        let owned = coherent-owned a s h known in
        if_cases (StepsTo _ a) (not (run_id == a.run_id)) (λ e. accept-Step a a false (Step-refl a))
          (λ e.
            if_cases (StepsTo _ a) (is_terminal s.status || not s.new_calls_enabled)
              (λ l. accept-Step a a false (Step-refl a))
              (λ l. start_dispatch-Step a s run_id d status known owned (ground arith))))
handle_execution-Step a run_id d status false h =
    option_cases (StepsTo _ a) a.state (λ e. accept-Step a a false (Step-refl a))
      (λ s known.
        let owned = coherent-owned a s h known in
        if_cases (StepsTo _ a) (not (run_id == a.run_id))
          (λ e.
            let foreign : (run_id == s.run_id) ≡ false =
              subst (λ r. (run_id == r) ≡ false) (sym owned) (ground arith) in
            accept-Step a _ false (
              commit-Step a s s _ known owned refl records
                (foreign_result run_id d status foreign)))
          (λ e. finish_dispatch-Step a s run_id d status known owned))

-- A commit by an actor that differs only in its calls.
commit_after :
    {m : Message} (a b : RunActor) (s t : RunState) (events : List EventSpec)
    → Same a b
    → a.state ≡ some s
    → s.run_id ≡ a.run_id
    → t.run_id ≡ s.run_id
    → Transition s t
    → Meant m (some s) t (announced s.status t.status (given_types events))
    → StepsTo m a (commit_only b t events)
commit_after a b s t events same known owned r change means =
    Same-Step a b (commit b t events).0 same
      (commit-Step b s t events (same.1 ∙ known) (owned ∙ sym same.0) r change means)

Same-trans : (a b c : RunActor) → Same a b → Same b c → Same a c
Same-trans a b c f g = (g.0 ∙ f.0, g.1 ∙ f.1, g.2 ∙ f.2)

exhaust-Step :
    (a : RunActor) (s : RunState) (additions : Amounts) (warning : Bool) (warned : List EventSpec)
    → a.state ≡ some s
    → s.run_id ≡ a.run_id
    → is_terminal s.status ≡ false
    → given_types warned ≡ (if warning then "budget.warning" ∷ [] else [])
    → StepsTo
        (budget_event additions)
        a
        (exhaust a (usage_next s (sum s.budget_usage additions) warning) warned)
unfolding exhaust usage_next exhausted_next
exhaust-Step a s additions warning warned known owned live warns =
    let usage = sum s.budget_usage additions in
    let pre : RunState = record (usage_next s usage warning) { new_calls_enabled = false } in
    let written = call_port a pre a.checkpoint_writer (write_checkpoint pre) in
    let archived = call_port written pre a.archive_port (archive_candidates a.run_id) in
    commit_after a archived s (exhausted_next (usage_next s usage warning)) _
      (Same-trans a written archived
        (call_port-Same a pre a.checkpoint_writer (write_checkpoint pre))
        (call_port-Same written pre a.archive_port (archive_candidates a.run_id)))
      known owned refl (exhausts usage warning live)
      (exhaustion additions warning (given_types warned) _ _ _ live warns
        (port_failed-types pre a.checkpoint_writer "checkpoint.write_failed")
        (port_failed-types pre a.archive_port "archive.failed") (exhausted-types warned _ _ _ _))

pub handle_budget-Step :
    (b : Breaker) (a : RunActor) (additions : Amounts)
    → IsCoherent a
    → StepsTo (budget_event additions) a (handle_budget b a additions)
unfolding handle_budget usage_next evaluate_budget
handle_budget-Step b a additions h =
    option_cases (StepsTo _ a) a.state (λ e. Step-refl a)
      (λ s known.
        let owned = coherent-owned a s h known in
        let evaluation =
          evaluate_budget b.Float b.divide b.at_least b.four_fifths b.unit s.budget_usage
            a.budget_limits additions s.budget_warning_emitted in
        if_cases (StepsTo _ a) (is_terminal s.status) (λ e. Step-refl a)
          (λ live.
            if_cases (StepsTo _ a) evaluation.exhausted
              (λ e.
                exhaust-Step a s additions evaluation.warning _ known owned live
                  (warned-types evaluation.warning _ refl))
              (λ e.
                commit-Step a s _ _ known owned refl
                  (spends evaluation.usage evaluation.warning live)
                  (spending additions evaluation.warning _ live
                    (warned-types evaluation.warning _ refl)))))

pub handle_recovery-Step :
    (a : RunActor) (command : RecoveryCommand)
    → IsCoherent a
    → StepsTo (recovery command) a (handle_recovery a command)
unfolding handle_recovery recover recovery_next trigger
handle_recovery-Step a command h =
    option_cases (StepsTo _ a) a.state (λ e. Step-refl a)
      (λ s known.
        option_cases (StepsTo _ a) (recovery_trigger command.trigger) (λ e. keeps refl refl refl)
          (λ kind e.
            commit-Step a s (recovery_next s (trigger kind command)) _ known
              (coherent-owned a s h known) refl (recovers (trigger kind command))
              (recovered command kind _ e (recovery-types kind command))))

after_advice-Step :
    {m : Message} (a : RunActor) (r : RunActor × Bool) (s : RunState) (event_type : String)
    (proposal : Advice)
    → Step m a r.0
    → StepsTo m a (after_advice r s event_type proposal)
unfolding after_advice
after_advice-Step a (b, committed) s event_type proposal step =
    if_cases (StepsTo _ a)
      (committed && event_type == "advice.adopted" && is_repair_decision proposal.kind)
      (λ e.
        Step-Same a b _
          (call_port-Same b s b.repair_advice_port (dispatch_adopted proposal.advice_id)) step)
      (λ e. step)

-- The state that an advice leads to: the same one, or one more identifier.
abbrev Reduces : Advice → RunState → Reduction → Type 0
Reduces proposal s reduction =
    (reduction.0.run_id ≡ s.run_id)
    × Transition s reduction.0
    × Meant (advice proposal) (some s) reduction.0
        (announced s.status reduction.0.status (reduction.1 ∷ []))

reduce_advice-Reduces :
    (proposal : Advice) (s : RunState) (d : AdviceDisposition)
    → Reduces proposal s (reduce_advice s proposal.advice_id d)
unfolding reduce_advice
reduce_advice-Reduces p s auto_adopted =
    if_cases (Reduces p s) (contains p.advice_id s.adopted_advice_ids)
      (λ e. (refl, records, repeated_advice p (ground arith)))
      (λ e. (
        refl,
        advises (s.adopted_advice_ids ++ p.advice_id ∷ []) s.pending_advice_ids,
        adoption p e,
      ))
reduce_advice-Reduces p s confirmation_required =
    if_cases (Reduces p s) (contains p.advice_id s.pending_advice_ids)
      (λ e. (refl, records, repeated_advice p (ground arith)))
      (λ e. (
        refl,
        advises s.adopted_advice_ids (s.pending_advice_ids ++ p.advice_id ∷ []),
        wait_for_confirmation p e,
      ))
reduce_advice-Reduces p s discarded = (refl, records, discarded_advice p)

pub handle_advice-Step :
    (a : RunActor) (proposal : Advice)
    → IsCoherent a
    → StepsTo (advice proposal) a (handle_advice a proposal)
unfolding handle_advice
handle_advice-Step a proposal h =
    option_cases (StepsTo _ a) a.state (λ e. Step-refl a)
      (λ s known.
        let owned = coherent-owned a s h known in
        let result = evaluate_advice a.advice_proposal_hash proposal a.advice_context in
        let reduction = reduce_advice s proposal.advice_id result.disposition in
        let (same, change, means) = reduce_advice-Reduces proposal s result.disposition in
        let event = advice_event reduction.1 result.reason result.proposal_hash in
        if_cases (StepsTo _ a) (not (proposal.run_id == a.run_id))
          (λ e.
            after_advice-Step a _ s "advice.discarded" proposal
              (commit-Step a s s _ known owned refl records (discarded_advice proposal)))
          (λ e.
            after_advice-Step a (commit a reduction.0 (event ∷ [])) reduction.0 reduction.1 proposal
              (commit-Step a s reduction.0 (event ∷ []) known owned same change means)))
