-- ===== src/Actor/Inputs.antt =====
-- runtime/actor.py: the commands of the API, `_handle_create`, `_handle_cancel` and `_handle_session_input`.
use code_migrator.Base.{
  string_eq, nat_eq, option_eq, ℕ, suc, String, Bool, true, false, not, ◌&&◌, ◌||◌, Option, none,
  some, List, [], ◌∷◌, ◌++◌, ◌==◌, get, put, get_or, Result, ok, err, if◌then◌else◌, ltb, leb,
  contains, keep,
}
use code_migrator.Integration.{IntegrationCoordinator}
use code_migrator.Integration
use code_migrator.Actor.Status.{status_value, planning, cancelled, is_terminal}
use code_migrator.Actor.Events.{
  Value, EventSpec, RuntimeEvent, spec, text, number, is_text, receipt_key,
}
use code_migrator.Actor.State.{RunState, RuntimeSnapshot, run_state}
use code_migrator.Actor.Store.{Store, Outcome, load, forget}
use code_migrator.Actor.Store
use code_migrator.Actor.Core.{
  RunActor, RunCreatedReceipt, Handled, no_response, cancelled_state, rejected, raised, raise_error,
  run_status_changed_event, commit, commit_only, call_port, cancel_work, schedule_continuation,
}

-- `int(event.data.get("state_version", 1))`
abbrev state_version_of : Option Value → ℕ
state_version_of (some (number n)) = n
state_version_of _ = 1

-- `RunCreatedReceipt`, with the checks of `__post_init__`; its key is right where it is made.
unfoldable pub run_created_receipt_of :
    String → RuntimeEvent → Result String (Option RunCreatedReceipt)
unfolding receipt_key
run_created_receipt_of run_id event =
    let version = state_version_of (get "state_version" event.entries) in
    if not (event.sequence == 1) || not (version == 1)
    then err "RunCreated receipt must identify the initial Run commit"
    else ok (
        some (record {
          run_id = run_id;
          receipt_key = receipt_key "run.created:" run_id;
          event_sequence = event.sequence;
          state_version = version;
        }))

unfoldable pub find_created : String → List RuntimeEvent → Result String (Option RunCreatedReceipt)
unfolding receipt_key
find_created run_id [] = ok none
find_created run_id (event ∷ events) =
    let rest = find_created run_id events in
    if event.event_type == "run.created"
      && is_text (get "receipt_key" event.entries) (receipt_key "run.created:" run_id)
    then run_created_receipt_of run_id event
    else rest

-- `_run_created_receipt`
unfoldable pub run_created_receipt :
    Option RuntimeSnapshot → String → Result String (Option RunCreatedReceipt)
run_created_receipt none run_id = ok none
run_created_receipt (some snapshot) run_id = find_created run_id snapshot.events

abbrev pub set_create_receipt : RunActor → Result String (Option RunCreatedReceipt) → Handled
set_create_receipt a (ok receipt) = (record a { create_receipt = receipt }, no_response)
set_create_receipt a (err error) = raise_error a error

-- The state that a run begins in.
unfoldable pub initial_state : String → String → RunState
initial_state run_id create_run = record (run_state run_id) {
  status = planning;
  version = 1;
  create_request = some create_run;
}

unfoldable pub created_events : RunState → List EventSpec
unfolding receipt_key
created_events state =
    spec "run.created" (
      ("status", text (status_value state.status))
      ∷ ("receipt_key", text (receipt_key "run.created:" state.run_id))
      ∷ ("state_version", number state.version)
      ∷ [])
    ∷ run_status_changed_event state
    ∷ []

-- What follows the call of the store's `create`.
unfoldable pub adopt_created : RunActor → Outcome RuntimeSnapshot → Handled
unfolding run_created_receipt
adopt_created a (store, err error) = raise_error (record a { store = store }) error
adopt_created a (store, ok snapshot) =
    set_create_receipt (record a { store = store; state = some snapshot.state })
      (run_created_receipt (some snapshot) a.run_id)

unfoldable pub create_state : RunActor → Option RunState → String → Bool → Handled
unfolding initial_state created_events adopt_created run_created_receipt
create_state a (some state) create_run in_transaction =
    if not (state.create_request == some create_run)
    then (record a { create_receipt = none }, no_response)
    else set_create_receipt a (run_created_receipt (load a.store a.run_id) a.run_id)
create_state a none create_run in_transaction =
    let state = initial_state a.run_id create_run in
    adopt_created a (Store.create a.store in_transaction state (created_events state))

unfoldable pub handle_create : RunActor → String → String → Bool → Handled
unfolding create_state
handle_create a run_id create_run in_transaction =
    if not (run_id == a.run_id)
    then (a, no_response)
    else create_state a a.state create_run in_transaction

-- The rollback of the transaction that `create` took part in: the store's callback, then
-- `_rollback_uncommitted_create`.
unfoldable pub roll_back_create : RunActor → RunActor
roll_back_create a =
    let forgotten = forget a.store a.run_id in
    elim a.state [
      | none ↦ record a { store = forgotten }
      | some state ↦
          if state.run_id == a.run_id
          then record a { store = forgotten; state = none; create_receipt = none }
          else record a { store = forgotten }
    ]

abbrev pub cancel_queue : Option IntegrationCoordinator → String → Option IntegrationCoordinator
cancel_queue none run_id = none
cancel_queue (some c) run_id = some (Integration.cancel_run c run_id)

unfoldable pub cancel_next : RunState → RunState
cancel_next state = record state {
  status = cancelled;
  cancel_requested = true;
  new_calls_enabled = false;
  active_dispatches = [];
  version = suc state.version;
}

-- What follows the commit of a cancellation.
unfoldable pub after_cancel : RunActor × Bool → RunState → Handled
after_cancel (a, false) next = (a, raised "Run cancellation was not committed")
after_cancel (a, true) next =
    let queued : RunActor = record a {
      integration_coordinator = cancel_queue a.integration_coordinator a.run_id;
    } in
    (call_port queued next a.cancellation_port (cancel_work a.run_id), cancelled_state next)

unfoldable pub handle_cancel : RunActor → ℕ → Handled
unfolding after_cancel
handle_cancel a expected_version = elim a.state [
  | none ↦ (a, rejected "NOT_FOUND")
  | some state ↦
      if not (expected_version == state.version)
      then (a, rejected "STALE_VERSION")
      else if is_terminal state.status
      then (a, rejected "PHASE_STATUS_MISMATCH")
      else after_cancel (commit a (cancel_next state) (spec "run.cancelled" [] ∷ []))
          (cancel_next state)
]

-- An entry that should be an integer.
pub data Given : Type 0 where
  missing : Given
  an_int : ℕ → Given
  other : Given

-- The payload of a session input, as its entries are read.
pub record SessionPayload : Type 0 where
  pub advice_id : Option String
  pub generation : Given
  pub material_progress : Bool
  pub checkpoint_diff : Bool
  pub slice_id : Option String

unfoldable pub handle_advice_confirmation : RunActor → RunState → SessionPayload → Handled
handle_advice_confirmation a state payload =
    let advice_id = get_or "" payload.advice_id in
    if not (contains advice_id state.pending_advice_ids)
    then commit_only a state
        (spec "advice.confirmation_rejected" (("advice_id", text advice_id) ∷ []) ∷ [])
    else commit_only a
        (record state {
          pending_advice_ids = keep (λ item. not (item == advice_id)) state.pending_advice_ids;
          adopted_advice_ids = state.adopted_advice_ids ++ advice_id ∷ [];
          version = suc state.version;
        })
        (spec "advice.confirmed" (("advice_id", text advice_id) ∷ []) ∷ [])

-- `sorted(counts.items())`
abbrev pub insert_count : ℕ × ℕ → List (ℕ × ℕ) → List (ℕ × ℕ)
insert_count p [] = p ∷ []
insert_count (g, n) ((h, m) ∷ counts) =
    let rest = insert_count (g, n) counts in
    if ltb g h || (g == h && leb n m) then (g, n) ∷ (h, m) ∷ counts else (h, m) ∷ rest

unfoldable pub sorted_counts : List (ℕ × ℕ) → List (ℕ × ℕ)
sorted_counts [] = []
sorted_counts (p ∷ counts) = insert_count p (sorted_counts counts)

abbrev pub max_continuations_per_generation : ℕ
max_continuations_per_generation = 3

-- Whether a stopped segment may go on: new calls, progress, and continuations left.
unfoldable pub is_eligible : RunState → SessionPayload → ℕ → Bool
is_eligible state payload generation =
    state.new_calls_enabled
    && (payload.material_progress || payload.checkpoint_diff)
    && ltb (get_or 0 (get generation state.continuation_counts)) max_continuations_per_generation

unfoldable pub segment_next : RunState → SessionPayload → ℕ → RunState
unfolding is_eligible
segment_next state payload generation =
    let current = get_or 0 (get generation state.continuation_counts) in
    let slice_id = get_or "unknown" payload.slice_id in
    let eligible = is_eligible state payload generation in
    record state {
      continuation_counts =
          sorted_counts
            (put generation (if eligible then suc current else current) state.continuation_counts);
      terminal_slice_failures =
          if not eligible && not (contains slice_id state.terminal_slice_failures)
          then state.terminal_slice_failures ++ slice_id ∷ []
          else state.terminal_slice_failures;
      version = suc state.version;
    }

abbrev pub segment_event : Bool → ℕ → ℕ → EventSpec
segment_event true generation current =
    spec "session.continuation_scheduled"
      (("generation", number generation) ∷ ("continuation", number (suc current)) ∷ [])
segment_event false generation current =
    spec "slice.terminal_failed" (
      ("generation", number generation)
      ∷ ("reason", text "INDEPENDENT_SLICE_TERMINAL_FAILURE")
      ∷ [])

unfoldable pub after_segment : RunActor × Bool → RunState → Bool → ℕ → Handled
after_segment (a, committed) next eligible generation =
    if committed && eligible
    then (
      call_port a next a.continuation_port (schedule_continuation a.run_id generation),
      no_response,
    )
    else (a, no_response)

-- `payload.get("generation", 0)`, where it is one of the three generations.
abbrev pub generation_of : Given → Option ℕ
generation_of missing = some 0
generation_of (an_int n) = if ltb n 3 then some n else none
generation_of other = none

unfoldable pub handle_segment_stopped : RunActor → RunState → SessionPayload → Handled
unfolding segment_next after_segment is_eligible
handle_segment_stopped a state payload = elim (generation_of payload.generation) [
  | none ↦
      commit_only a (record state { version = suc state.version })
        (spec "slice.terminal_failed" (("reason", text "INVALID_GENERATION") ∷ []) ∷ [])
  | some generation ↦
      let eligible = is_eligible state payload generation in
      let current = get_or 0 (get generation state.continuation_counts) in
      after_segment
        (commit a (segment_next state payload generation)
          (segment_event eligible generation current ∷ []))
        (segment_next state payload generation) eligible generation
]

unfoldable pub handle_session_input : RunActor → String → SessionPayload → Handled
unfolding handle_advice_confirmation handle_segment_stopped
handle_session_input a kind payload = elim a.state [
  | none ↦ (a, no_response)
  | some state ↦
      if is_terminal state.status
      then (a, no_response)
      else if kind == "confirm_advice"
      then handle_advice_confirmation a state payload
      else if kind == "segment_stopped"
      then handle_segment_stopped a state payload
      else commit_only a (record state { version = suc state.version })
          (spec "session.input.accepted" (("kind", text kind) ∷ []) ∷ [])
]
