-- ===== src/Actor/Judgement.antt =====
-- runtime/actor.py: `_handle_recovery` and `_handle_advice`; `RecoveryCoordinator.trigger` of runtime/recovery.py.
use code_migrator.Base.{
  string_eq, nat_eq, pair_eq, suc, String, Bool, true, false, not, ◌&&◌, Option, none, some, List,
  [], ◌∷◌, ◌++◌, ◌==◌, if◌then◌else◌, contains, map,
}
use code_migrator.Actor.Events.{EventSpec, spec, text, receipt_key}
use code_migrator.Actor.State.{RunState, dispatch_eq}
use code_migrator.Actor.Advice.{
  Advice, AdviceKind, AdviceDisposition, evaluate_advice, auto_adopted, confirmation_required,
  discarded, repair_decision,
}
use code_migrator.Actor.Core.{
  RunActor, Handled, no_response, commit, commit_only, call_port, dispatch_adopted, raise_error,
}

pub data RecoveryTrigger : Type 0 where
  startup : RecoveryTrigger
  interruption : RecoveryTrigger
  intent_gap : RecoveryTrigger

-- `RecoveryTrigger(value)`
unfoldable pub recovery_trigger : String → Option RecoveryTrigger
recovery_trigger value =
    if value == "startup"
    then some startup
    else if value == "interruption"
    then some interruption
    else if value == "intent_gap"
    then some intent_gap
    else none

-- The texts of the plan's events: one that tells a dispatch stays apart from its prefix.
pub data RecoveryEvent : Type 0 where
  plain : String → RecoveryEvent
  interrupted : String → RecoveryEvent

pub record RecoveryPlan : Type 0 where
  pub trigger : RecoveryTrigger
  pub events : List RecoveryEvent
  pub report_halted : Bool

pub record RecoveryCommand : Type 0 where
  pub trigger : String
  pub active_dispatch_ids : List String
  pub missing_intent_ids : List String
  pub checkpoint_corrupt : Bool
  pub ref_drift : Bool

abbrev pub event_if : Bool → String → List RecoveryEvent
event_if true item = plain item ∷ []
event_if false item = []

-- `RecoveryCoordinator.trigger`
unfoldable pub trigger : RecoveryTrigger → RecoveryCommand → RecoveryPlan
trigger kind command = record {
  trigger = kind;
  events =
      plain "recovery.actor_rebuilt" ∷ []
      ++ map interrupted command.active_dispatch_ids
      ++ plain "git.refs.reconciled" ∷ plain "receipts.repaired" ∷ []
      ++ map (λ item. plain (receipt_key "integration.intent.retry:" item))
          command.missing_intent_ids
      ++ event_if command.checkpoint_corrupt "checkpoint.discarded"
      ++ event_if command.ref_drift "recovery.ref_drift"
      ++ plain "recovery.completed" ∷ [];
  report_halted = command.ref_drift;
}

abbrev pub recovery_spec : RecoveryEvent → EventSpec
recovery_spec (plain item) = spec item []
recovery_spec (interrupted id) = spec "dispatch.interrupted" (("dispatch_id", text id) ∷ [])

unfoldable pub recovery_next : RunState → RecoveryPlan → RunState
recovery_next state plan = record state {
  active_dispatches = [];
  reporting_halted = plan.report_halted;
  version = suc state.version;
}

unfoldable pub recover : RunActor → RunState → RecoveryPlan → Handled
unfolding recovery_next
recover a state plan = commit_only a (recovery_next state plan) (map recovery_spec plan.events)

unfoldable pub handle_recovery : RunActor → RecoveryCommand → Handled
unfolding recover
handle_recovery a command = elim a.state [
  | none ↦ (a, no_response)
  | some state ↦ elim (recovery_trigger command.trigger) [
    | none ↦ raise_error a "not a valid RecoveryTrigger"
    | some kind ↦ recover a state (trigger kind command)
  ]
]

-- The advice that is adopted or waits, and the type of the event.
abbrev pub Reduction : Type 0
Reduction = RunState × String

abbrev adopt : RunState → String → Reduction
adopt state advice_id =
    if contains advice_id state.adopted_advice_ids then (state, "advice.duplicate") else (
      record state {
        adopted_advice_ids = state.adopted_advice_ids ++ advice_id ∷ [];
        version = suc state.version;
      },
      "advice.adopted",
    )

abbrev await_confirmation : RunState → String → Reduction
await_confirmation state advice_id =
    if contains advice_id state.pending_advice_ids then (state, "advice.duplicate") else (
      record state {
        pending_advice_ids = state.pending_advice_ids ++ advice_id ∷ [];
        version = suc state.version;
      },
      "advice.confirmation_required",
    )

unfoldable pub reduce_advice : RunState → String → AdviceDisposition → Reduction
reduce_advice state advice_id auto_adopted = adopt state advice_id
reduce_advice state advice_id confirmation_required = await_confirmation state advice_id
reduce_advice state advice_id discarded = (state, "advice.discarded")

abbrev pub is_repair_decision : AdviceKind → Bool
is_repair_decision repair_decision = true
is_repair_decision _ = false

-- What follows the commit of an advice: an adopted repair decision is dispatched.
unfoldable pub after_advice : RunActor × Bool → RunState → String → Advice → Handled
after_advice (a, committed) next event_type advice =
    if committed && event_type == "advice.adopted" && is_repair_decision advice.kind
    then (call_port a next a.repair_advice_port (dispatch_adopted advice.advice_id), no_response)
    else (a, no_response)

abbrev pub advice_event : String → String → String → EventSpec
advice_event event_type reason proposal_hash =
    spec event_type (("reason", text reason) ∷ ("proposal_hash", text proposal_hash) ∷ [])

unfoldable pub handle_advice : RunActor → Advice → Handled
unfolding reduce_advice after_advice
handle_advice a advice = elim a.state [
  | none ↦ (a, no_response)
  | some state ↦
      let result = evaluate_advice a.advice_proposal_hash advice a.advice_context in
      let (next, event_type) = reduce_advice state advice.advice_id result.disposition in
      if not (advice.run_id == a.run_id)
      then after_advice (commit a state (advice_event "advice.discarded" "RUN_ID_MISMATCH" "" ∷ []))
          state "advice.discarded" advice
      else after_advice
          (commit a next (advice_event event_type result.reason result.proposal_hash ∷ [])) next
          event_type advice
]
