-- ===== src/Actor/Rounds.antt =====
-- runtime/actor.py: the rounds of EXECUTE, `_schedule_execution_round`, `_commit_execution_round` and
-- `_finish_execution_round`. The scheduler runs beside the actor and answers by a message.
use code_migrator.Base.{
  string_eq, nat_eq, ℕ, suc, String, Bool, true, false, not, ◌&&◌, Option, none, some, List, [],
  ◌∷◌, ◌++◌, ◌==◌, get, put, pop, get_or, if◌then◌else◌, Result, ok, err, contains, add, discard,
  subset, map, length, nat_beq,
}
use code_migrator.Base.Loops.{unique}
use code_migrator.Integration.{is_some}
use code_migrator.Actor.Status.{status_eq, executing, verifying}
use code_migrator.Actor.Events.{
  EventSpec, spec, text, number, flag, event_for_receipt, has_agent_run_event, actor_phase_receipt,
}
use code_migrator.Actor.State.{RunState, CandidateCheckpointFact, is_candidate_of}
use code_migrator.Actor.AgentRuns.{
  AgentRun, AgentRunReceipt, is_terminal_state, phase_value, terminal_spec,
}
use code_migrator.Actor.Store.{load, events_of}
use code_migrator.Actor.Core.{
  RunActor, Handled, Response, ExecuteRoundResult, raise_error, raised, round_result, no_response,
  commit, advance_one_round,
}
use code_migrator.Actor.Candidates.{
  CandidateCheckpointClaim, CandidateVerifier, find_fact, is_terminal_receipt,
  validate_candidate_claim,
}

pub record ExecutionRoundDecision : Type 0 where
  pub complete : Bool
  pub dispatch_count : ℕ
  pub completed_write_agent_run_ids : List String
  pub candidate_claims : List CandidateCheckpointClaim
  pub terminal_agent_run_ids : List String

-- `_schedule_execution_round`: the caller waits; the scheduler is called once for the key.
unfoldable pub schedule_execution_round : RunActor → RunState → String → Handled
schedule_execution_round a state key =
    let waiting = suc (get_or 0 (get key a.execution_round_responses)) in
    let waits : RunActor = record a {
      execution_round_responses = put key waiting a.execution_round_responses;
    } in
    if not
      (state.status == executing && is_some state.frozen_plan_sha256 && a.has_execution_scheduler)
    then raise_error a "EXECUTE requires an active Run and Actor scheduler"
    else if contains key a.execution_round_tasks
    then (waits, no_response)
    else (
      record waits {
        execution_round_tasks = add key a.execution_round_tasks;
        calls = a.calls ++ advance_one_round a.run_id key ∷ [];
      },
      no_response,
    )

-- `_finish_execution_round`: nobody waits for the key any more.
unfoldable pub finish_execution_round : RunActor → String → RunActor
finish_execution_round a key = record a {
  execution_round_responses = pop key a.execution_round_responses;
  execution_round_tasks = discard key a.execution_round_tasks;
}

abbrev distinct : List String → Bool
distinct ids = nat_beq (length (unique ids)) (length ids)

unfoldable pub is_claim_set_complete : ExecutionRoundDecision → Bool
is_claim_set_complete d =
    let completed = d.completed_write_agent_run_ids in
    let claimed = map (λ (c : CandidateCheckpointClaim). c.agent_run_id) d.candidate_claims in
    distinct claimed
    && distinct completed
    && distinct d.terminal_agent_run_ids
    && (subset completed claimed && subset claimed completed)
    && subset completed d.terminal_agent_run_ids

-- One turn of the loop over the terminal agent runs: an event, none, or an error.
unfoldable pub terminal_of_run :
    RunActor → String → AgentRun → Option AgentRunReceipt → Result String (List EventSpec)
terminal_of_run a id r none = err "EXECUTE terminal AgentRun has no matching terminal receipt"
terminal_of_run a id r (some receipt) =
    let events = events_of (load a.store a.run_id) in
    if not (
      r.owner_kind == "run"
      && r.owner_id == a.run_id
      && phase_value r.phase == "EXECUTE"
      && is_terminal_state r.state
      && is_terminal_receipt (some receipt) r.agent_run_id)
    then err "EXECUTE terminal AgentRun has no matching terminal receipt"
    else if not (has_agent_run_event events "agent_run.started" id)
    then err "terminal EXECUTE AgentRun has no committed start receipt"
    else if has_agent_run_event events "agent_run.terminal" id
    then ok []
    else elim (terminal_spec r receipt) [ ok event ↦ ok (event ∷ []) | err error ↦ err error ]

unfoldable pub terminal_event : RunActor → String → Result String (List EventSpec)
unfolding terminal_of_run
terminal_event a id = elim (get id a.store.agent_runs) [
  | none ↦ err "EXECUTE terminal AgentRun has no matching terminal receipt"
  | some r ↦ terminal_of_run a id r (get id a.store.agent_receipts)
]

abbrev prepend : List EventSpec → Result String (List EventSpec) → Result String (List EventSpec)
prepend events (ok rest) = ok (events ++ rest)
prepend events (err error) = err error

unfoldable pub terminal_events : RunActor → List String → Result String (List EventSpec)
terminal_events a [] = ok []
terminal_events a (id ∷ ids) =
    let rest = terminal_events a ids in
    elim (terminal_event a id) [ err error ↦ err error | ok events ↦ prepend events rest ]

-- `candidate_facts[candidate_facts.index(current)] = fact`, or `append`.
unfoldable pub place_fact :
    CandidateCheckpointFact → List CandidateCheckpointFact → List CandidateCheckpointFact
place_fact fact [] = fact ∷ []
place_fact fact (current ∷ facts) =
    let rest = place_fact fact facts in
    if is_candidate_of fact.slice_id fact.generation current then fact ∷ facts else current ∷ rest

-- The accepted facts and the events of the claims so far.
abbrev pub Accepted : Type 0
Accepted = List CandidateCheckpointFact × List EventSpec

abbrev is_same_receipt : Option CandidateCheckpointFact → CandidateCheckpointFact → Bool
is_same_receipt none fact = false
is_same_receipt (some current) fact = current.receipt_sha256 == fact.receipt_sha256

unfoldable pub accept_fact : CandidateCheckpointFact → Accepted → Accepted
accept_fact fact (facts, events) =
    let current = find_fact (is_candidate_of fact.slice_id fact.generation) facts in
    if is_same_receipt current fact then (facts, events) else (
      place_fact fact facts,
      events
          ++ spec "slice.candidate.accepted" (
              ("agent_run_id", text fact.agent_run_id)
              ∷ ("slice_id", text fact.slice_id)
              ∷ ("generation", number fact.generation)
              ∷ [])
            ∷ [],
    )

-- The loop over the claims; each is validated against the facts accepted before it.
unfoldable pub accept_claims :
    RunActor → CandidateVerifier → List CandidateCheckpointClaim → Accepted → Result String Accepted
accept_claims a v [] accepted = ok accepted
accept_claims a v (claim ∷ claims) accepted = elim (validate_candidate_claim a v claim accepted.0) [
  | err error ↦ err error
  | ok fact ↦ accept_claims a v claims (accept_fact fact accepted)
]

unfoldable pub round_next : RunState → Bool → List CandidateCheckpointFact → RunState
round_next state complete facts = record state {
  status = if complete then verifying else executing;
  candidate_checkpoints = facts;
  version = suc state.version;
}

-- The result of a round, reloaded from the log; an assertion has an empty message.
abbrev round_receipt : RunActor → String → Bool → Result String ExecuteRoundResult
round_receipt a key complete = elim (event_for_receipt (events_of (load a.store a.run_id)) key) [
  | none ↦ err ""
  | some event ↦ elim (actor_phase_receipt a.run_id key event.sequence) [
    | ok receipt ↦ ok (record { receipt = receipt; complete = complete })
    | err error ↦ err error
  ]
]

abbrev pub RoundOutcome : Type 0
RoundOutcome = RunActor × Result String ExecuteRoundResult

unfoldable pub after_round : RunActor × Bool → String → Bool → RoundOutcome
after_round (a, false) key complete = (a, err "EXECUTE actor receipt could not be committed")
after_round (a, true) key complete = (a, round_receipt a key complete)

unfoldable pub commit_accepted :
    RunActor → RunState → String → ExecutionRoundDecision → List EventSpec → Accepted → RoundOutcome
unfolding after_round round_next
commit_accepted a state key d terminal (facts, events) =
    after_round
      (commit a (round_next state d.complete facts) (
        terminal
        ++ events
        ++ spec "run.execute.round" (
            ("receipt_key", text key)
            ∷ ("complete", flag d.complete)
            ∷ ("dispatch_count", number d.dispatch_count)
            ∷ [])
          ∷ []))
      key d.complete

-- `_commit_execution_round`
unfoldable pub commit_execution_round :
    RunActor → CandidateVerifier → RunState → String → ExecutionRoundDecision → RoundOutcome
unfolding commit_accepted
commit_execution_round a v state key d =
    if not (state.status == executing && is_some state.frozen_plan_sha256)
    then (a, err "EXECUTE result arrived after its Run stopped executing")
    else if not (is_claim_set_complete d)
    then (a, err "EXECUTE terminal or candidate checkpoint claim set is incomplete")
    else elim (terminal_events a d.terminal_agent_run_ids) [
      | err error ↦ (a, err error)
      | ok terminal ↦
          elim (accept_claims a v d.candidate_claims (state.candidate_checkpoints, [])) [
            | err error ↦ (a, err error)
            | ok accepted ↦ commit_accepted a state key d terminal accepted
          ]
    ]

abbrev pub round_response : Result String ExecuteRoundResult → Response
round_response (ok result) = round_result result
round_response (err error) = raised error

abbrev pub after_decision : RoundOutcome → String → Handled
after_decision (a, result) key = (finish_execution_round a key, round_response result)

-- `_handle_execution_round_finished`: the response is for each that waits for the key.
unfoldable pub handle_round_finished :
    RunActor → CandidateVerifier → String → Result String ExecutionRoundDecision → Handled
unfolding commit_execution_round finish_execution_round
handle_round_finished a v key (err error) = (finish_execution_round a key, raised error)
handle_round_finished a v key (ok decision) = elim a.state [
  | none ↦
      (finish_execution_round a key, raised "EXECUTE round completion is missing its Run facts")
  | some state ↦ after_decision (commit_execution_round a v state key decision) key
]
