-- ===== src/Actor/Budget.antt =====
-- runtime/actor.py: `_handle_budget`. The wallet's evaluation is that of runtime/budget.py.
use code_migrator.Base.{
  string_eq, nat_eq, pair_eq, ℕ, suc, String, Bool, false, ◌||◌, Option, none, some, List, [], ◌∷◌,
  ◌++◌, if◌then◌else◌,
}
use code_migrator.Wallet.Account.{Amounts, evaluate_budget}
use code_migrator.Actor.Status.{failed, budget_exhausted, is_terminal}
use code_migrator.Actor.Events.{EventSpec, spec, text, utilization}
use code_migrator.Actor.State.{RunState, dispatch_eq}
use code_migrator.Actor.Core.{
  RunActor, Handled, Port, no_response, commit_only, call_port, write_checkpoint,
  archive_candidates,
}

-- What budget.py needs of floating-point numbers: the division, the order and the two thresholds.
pub record Breaker : Type 1 where
  pub Float : Type 0
  pub divide : ℕ → ℕ → Float
  pub at_least : Float → Float → Bool
  pub four_fifths : Float
  pub unit : Float

-- A port's exception leaves an event.
abbrev pub port_failed : RunState → Option Port → String → List EventSpec
port_failed state none event_type = []
port_failed state (some port) event_type = elim (port state) [
  | none ↦ []
  | some error ↦ spec event_type [] ∷ []
]

unfoldable pub usage_next : RunState → Amounts → Bool → RunState
usage_next state usage warning = record state {
  budget_usage = usage;
  budget_warning_emitted = state.budget_warning_emitted || warning;
  version = suc state.version;
}

unfoldable pub exhausted_next : RunState → RunState
exhausted_next state = record state {
  status = failed;
  failure_reason = some budget_exhausted;
  new_calls_enabled = false;
  active_dispatches = [];
}

-- The exhausted branch: a checkpoint, an archive, and the failure.
unfoldable pub exhaust : RunActor → RunState → List EventSpec → Handled
unfolding exhausted_next
exhaust a next warned =
    let pre = record next { new_calls_enabled = false } in
    let written = call_port a pre a.checkpoint_writer (write_checkpoint pre) in
    let archived = call_port written pre a.archive_port (archive_candidates a.run_id) in
    commit_only archived (exhausted_next next) (
      warned
      ++ spec "checkpoint.pre" [] ∷ []
      ++ port_failed pre a.checkpoint_writer "checkpoint.write_failed"
      ++ port_failed pre a.archive_port "archive.failed"
      ++ spec "run.archived" []
        ∷ spec "run.failed" (("reason", text "BUDGET_EXHAUSTED") ∷ [])
        ∷ spec "budget.exhausted" []
        ∷ [])

unfoldable pub handle_budget : Breaker → RunActor → Amounts → Handled
unfolding usage_next exhaust
handle_budget b a additions = elim a.state [
  | none ↦ (a, no_response)
  | some state ↦
      let evaluation =
        evaluate_budget b.Float b.divide b.at_least b.four_fifths b.unit state.budget_usage
          a.budget_limits additions state.budget_warning_emitted in
      let warned =
        if evaluation.warning
        then spec "budget.warning"
            (("utilization", utilization evaluation.usage a.budget_limits) ∷ [])
          ∷ []
        else [] in
      let next = usage_next state evaluation.usage evaluation.warning in
      if is_terminal state.status
      then (a, no_response)
      else if evaluation.exhausted
      then exhaust a next warned
      else commit_only a next warned
]
