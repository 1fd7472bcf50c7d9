-- ===== src/Actor/Integrations.antt =====
-- runtime/actor.py: `_persist_integration_intent`, `_record_integration_completed` and
-- `_validate_integration_replay`.
use code_migrator.Base.{
  string_eq, nat_eq, ℕ, String, Bool, false, not, ◌&&◌, Option, none, some, List, [], ◌∷◌, ◌==◌,
  any, if◌then◌else◌, ok, err,
}
use code_migrator.Integration.{is_some}
use code_migrator.Actor.Status.{status_eq, executing}
use code_migrator.Actor.Events.{
  EventSpec, RuntimeEvent, spec, text, number, receipt_key, event_for_receipt,
}
use code_migrator.Actor.State.{RunState, RuntimeSnapshot, is_candidate_of}
use code_migrator.Actor.Intents.{IntegrationIntent, IntegrationReceipt, intent_eq}
use code_migrator.Actor.Store.{Outcome, load}
use code_migrator.Actor.Heads.{
  load_integration_intent, load_integration_receipt, load_latest_integration_receipt, head_differs,
  intent_is, commit_integration_receipt,
}
use code_migrator.Actor.Heads
use code_migrator.Actor.Core.{RunActor, Handled, raise_error, committed_intent, respond_receipt}
use code_migrator.Actor.Workflow.{bump}

-- Whether the intent is of this run, which executes a frozen plan.
unfoldable pub is_owned : RunActor → RunState → IntegrationIntent → Bool
is_owned a state intent =
    intent.run_id == a.run_id && state.status == executing && is_some state.frozen_plan_sha256

abbrev pub has_candidate : RunState → IntegrationIntent → Bool
has_candidate state intent =
    any (is_candidate_of intent.slice_id intent.generation) state.candidate_checkpoints

abbrev pub adopt_intent : RunActor → IntegrationIntent → Outcome IntegrationIntent → Handled
adopt_intent a intent (store, err error) = raise_error (record a { store = store }) error
adopt_intent a intent (store, ok committed) =
    let a' : RunActor = record a { store = store } in
    if not (committed == intent)
    then raise_error a' "integration intent owner receipt does not match request"
    else (a', committed_intent committed)

unfoldable pub persist_integration_intent :
    RunActor → RunState → String → IntegrationIntent → Handled
unfolding is_owned receipt_key
persist_integration_intent a state key intent =
    if not (is_owned a state intent)
    then raise_error a "integration intent failed Run owner validation"
    else if not (has_candidate state intent)
    then raise_error a "integration intent requires an accepted M-08 candidate"
    else if not (key == receipt_key "integration.intent:" intent.idempotency_key)
    then raise_error a "integration intent command identity mismatch"
    else if not (is_some (load_integration_intent a.store a.run_id intent.idempotency_key))
        && head_differs (load_latest_integration_receipt a.store a.run_id) intent
    then raise_error a "integration intent expected head differs from latest receipt"
    else adopt_intent a intent (Heads.persist_integration_intent a.store intent)

unfoldable pub integration_events : String → IntegrationIntent → String → List EventSpec
integration_events key intent oid =
    spec "integration.completed" (
      ("receipt_key", text key)
      ∷ ("slice_id", text intent.slice_id)
      ∷ ("generation", number intent.generation)
      ∷ ("verified_commit_oid", text oid)
      ∷ [])
    ∷ spec "verified.advanced" (
        ("slice_id", text intent.slice_id)
        ∷ ("generation", number intent.generation)
        ∷ ("commit_oid", text oid)
        ∷ [])
    ∷ []

abbrev pub event_is : Option RuntimeEvent → ℕ → Bool
event_is none sequence = false
event_is (some event) sequence = sequence == event.sequence

-- The receipt is compared with the log that is reloaded, and the state there adopted.
unfoldable pub adopt_reloaded :
    RunActor
    → String
    → IntegrationIntent
    → String
    → IntegrationReceipt
    → Option RuntimeSnapshot
    → Handled
adopt_reloaded a key intent oid receipt none =
    raise_error a "integration receipt could not be reloaded"
adopt_reloaded a key intent oid receipt (some committed) =
    if not (
      receipt.intent.run_id == a.run_id
      && receipt.intent.idempotency_key == intent.idempotency_key
      && receipt.verified_commit_oid == oid
      && event_is (event_for_receipt committed.events key) receipt.event_sequence)
    then raise_error a "integration receipt could not be reloaded"
    else respond_receipt (record a { state = some committed.state }) key
        "integration receipt could not be reloaded"

unfoldable pub adopt_integration :
    RunActor → String → IntegrationIntent → String → Outcome IntegrationReceipt → Handled
unfolding adopt_reloaded
adopt_integration a key intent oid (store, err error) =
    raise_error (record a { store = store }) error
adopt_integration a key intent oid (store, ok receipt) =
    adopt_reloaded (record a { store = store }) key intent oid receipt (load store a.run_id)

unfoldable pub record_integration_completed :
    RunActor → RunState → String → IntegrationIntent → String → Handled
unfolding is_owned integration_events adopt_integration receipt_key
record_integration_completed a state key intent oid =
    if not (
      is_owned a state intent && key == receipt_key "integration.completed:" intent.idempotency_key)
    then raise_error a "integration completion failed Run owner validation"
    else if not (oid == intent.prospective_commit_oid)
    then raise_error a "verified head does not match the intent"
    else if not (has_candidate state intent)
    then raise_error a "integration completion requires an accepted M-08 candidate"
    else if not (intent_is (load_integration_intent a.store a.run_id intent.idempotency_key) intent)
    then raise_error a "integration intent is not durably committed"
    else if head_differs (load_latest_integration_receipt a.store a.run_id) intent
    then raise_error a "integration intent expected head differs from latest receipt"
    else adopt_integration a key intent oid (
        commit_integration_receipt a.store (bump state) intent oid
          (integration_events key intent oid))

abbrev is_receipt : Option IntegrationReceipt → String → ℕ → Bool
is_receipt none oid sequence = false
is_receipt (some receipt) oid sequence =
    receipt.verified_commit_oid == oid && receipt.event_sequence == sequence

-- `_validate_integration_replay`
unfoldable pub is_integration_replay : RunActor → IntegrationIntent → String → ℕ → Bool
is_integration_replay a intent oid sequence =
    intent_is (load_integration_intent a.store a.run_id intent.idempotency_key) intent
    && is_receipt (load_integration_receipt a.store a.run_id intent.idempotency_key) oid sequence
