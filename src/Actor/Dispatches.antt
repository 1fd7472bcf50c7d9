-- ===== src/Actor/Dispatches.antt =====
-- runtime/actor.py: `_handle_execution`, `_start_dispatch` and `_finish_dispatch`.
use code_migrator.Base.{
  string_eq, nat_eq, pair_eq, suc, String, Bool, true, false, not, ◌||◌, Option, none, some, List,
  [], ◌∷◌, ◌++◌, ◌==◌, if◌then◌else◌, keep, any,
}
use code_migrator.Actor.Status.{executing, is_terminal}
use code_migrator.Actor.Events.{spec, text}
use code_migrator.Actor.State.{RunState, ActiveDispatch, dispatch_eq, dispatch_key}
use code_migrator.Actor.Core.{RunActor, Handled, no_response, commit}

-- `self._last_dispatch_acceptance = accepted`
abbrev pub accept : RunActor → Bool → Handled
accept a accepted = (record a { last_dispatch_acceptance = some accepted }, no_response)

abbrev pub has_key : ActiveDispatch → String → ActiveDispatch → Bool
has_key dispatch run_id active = dispatch_key active run_id == dispatch_key dispatch run_id

unfoldable pub start_next : RunState → ActiveDispatch → RunState
start_next state dispatch = record state {
  status = executing;
  active_dispatches = state.active_dispatches ++ dispatch ∷ [];
  version = suc state.version;
}

abbrev pub after_start : RunActor × Bool → Handled
after_start (a, committed) = accept a committed

-- `_start_dispatch`
unfoldable pub start_dispatch : RunActor → RunState → ActiveDispatch → Handled
unfolding start_next
start_dispatch a state dispatch =
    if state.cancel_requested || not state.new_calls_enabled
    then accept a false
    else if any (has_key dispatch a.run_id) state.active_dispatches
    then accept a false
    else after_start (
        commit a (start_next state dispatch) (
          spec "dispatch.started" (
            ("attempt_id", text dispatch.dispatch_attempt_id)
            ∷ ("check_id", text dispatch.check_id)
            ∷ [])
          ∷ []))

-- `next(candidate for candidate in active if ...)`
abbrev pub find_active : (ActiveDispatch → Bool) → List ActiveDispatch → Option ActiveDispatch
find_active p [] = none
find_active p (active ∷ actives) =
    let rest = find_active p actives in if p active then some active else rest

abbrev pub is_active : Option ActiveDispatch → ActiveDispatch → Bool
is_active none dispatch = false
is_active (some active) dispatch = active == dispatch

unfoldable pub finish_next : RunState → ActiveDispatch → RunState
finish_next state dispatch = record state {
  active_dispatches = keep (λ item. not (item == dispatch)) state.active_dispatches;
  version = suc state.version;
}

-- `_finish_dispatch`; the answer does not depend on the commit.
unfoldable pub finish_dispatch : RunActor → RunState → ActiveDispatch → Option String → Handled
unfolding finish_next
finish_dispatch a state dispatch result_status =
    if not (is_active (find_active (has_key dispatch a.run_id) state.active_dispatches) dispatch)
    then accept
        (commit a state (
          spec "LATE_DISPATCH_RESULT" (("attempt_id", text dispatch.dispatch_attempt_id) ∷ [])
          ∷ [])).0
        false
    else accept
        (commit a (finish_next state dispatch) (
          spec "dispatch.completed" (("status", text (result_or_unknown result_status)) ∷ [])
          ∷ [])).0
        true
  where
    -- `result_status or "UNKNOWN"`
    result_or_unknown : Option String → String
    result_or_unknown none = "UNKNOWN"
    result_or_unknown (some status) = if status == "" then "UNKNOWN" else status

unfoldable pub handle_execution :
    RunActor → String → ActiveDispatch → Option String → Bool → Handled
unfolding start_dispatch finish_dispatch
handle_execution a run_id dispatch result_status started = elim a.state [
  | none ↦ accept a false
  | some state ↦
      if not (run_id == a.run_id)
      then if started
        then accept a false
        else accept
            (commit a state
              (spec "LATE_DISPATCH_RESULT" (("reason", text "RUN_ID_MISMATCH") ∷ []) ∷ [])).0
            false
      else if started
      then if is_terminal state.status || not state.new_calls_enabled
        then accept a false
        else start_dispatch a state dispatch
      else finish_dispatch a state dispatch result_status
]
