-- ===== src/Actor/Heads.antt =====
-- runtime/store.py, InMemoryRuntimeStore: integration intents and receipts.
use code_migrator.Base.{
  string_eq, nat_eq, pair_eq, ℕ, suc, ◌+◌, String, Bool, true, false, not, ◌&&◌, ◌||◌, Option, none,
  some, List, [], ◌∷◌, ◌++◌, ◌==◌, ok, err, get, put, length, if◌then◌else◌, any, ltb, keep,
}
use code_migrator.Integration.{is_some}
use code_migrator.Actor.Events.{EventSpec, RuntimeEvent, is_text, receipt_key}
use code_migrator.Actor.State.{RunState, RuntimeSnapshot}
use code_migrator.Actor.Intents.{
  IntegrationIntent, IntegrationReceipt, intent_eq, validate_integration_intent,
  validate_integration_events,
}
use code_migrator.Actor.Store.{Store, Outcome, load, materialize, events_of}

unfoldable pub load_integration_intent : Store → String → String → Option IntegrationIntent
load_integration_intent s run_id key = get (run_id, key) s.integration_intents

unfoldable pub load_integration_receipt : Store → String → String → Option IntegrationReceipt
load_integration_receipt s run_id key = get (run_id, key) s.integration_receipts

abbrev pub later : Option IntegrationReceipt → IntegrationReceipt → Bool
later none receipt = true
later (some latest) receipt = ltb latest.event_sequence receipt.event_sequence

-- Python's `max` by the sequence, of the receipts of a run: the first of the greatest.
unfoldable pub latest_from :
    String
    → Option IntegrationReceipt
    → List ((String × String) × IntegrationReceipt)
    → Option IntegrationReceipt
latest_from run_id latest [] = latest
latest_from run_id latest (((owner, key), receipt) ∷ receipts) =
    latest_from run_id (if owner == run_id && later latest receipt then some receipt else latest)
      receipts

unfoldable pub load_latest_integration_receipt : Store → String → Option IntegrationReceipt
load_latest_integration_receipt s run_id = latest_from run_id none s.integration_receipts

-- `list_pending_integration_intents`, with their keys.
unfoldable pub pending_intents : Store → String → List ((String × String) × IntegrationIntent)
unfolding load_integration_receipt
pending_intents s run_id =
    keep
      (λ item. item.0.0 == run_id && not (is_some (load_integration_receipt s item.0.0 item.0.1)))
      s.integration_intents

-- `latest is not None and latest.verified_commit_oid != intent.expected_verified_oid`
abbrev pub head_differs : Option IntegrationReceipt → IntegrationIntent → Bool
head_differs none intent = false
head_differs (some latest) intent = not (latest.verified_commit_oid == intent.expected_verified_oid)

-- Whether another intent of the run waits for its receipt.
unfoldable pub another_pending : Store → String → String → Bool
unfolding load_integration_receipt
another_pending s run_id key =
    any
      (λ item.
        item.0.0 == run_id
        && not (item.0.1 == key)
        && not (is_some (load_integration_receipt s run_id item.0.1)))
      s.integration_intents

unfoldable pub persist_new_intent : Store → IntegrationIntent → Outcome IntegrationIntent
unfolding another_pending
persist_new_intent s intent =
    if another_pending s intent.run_id intent.idempotency_key
    then (s, err "another integration intent is awaiting verified receipt")
    else if head_differs (load_latest_integration_receipt s intent.run_id) intent
    then (s, err "integration intent expected head differs from latest receipt")
    else (
      record s {
        integration_intents =
            put (intent.run_id, intent.idempotency_key) intent s.integration_intents;
      },
      ok intent,
    )

unfoldable pub persist_integration_intent : Store → IntegrationIntent → Outcome IntegrationIntent
unfolding persist_new_intent
persist_integration_intent s intent = elim (validate_integration_intent intent) [
  | some error ↦ (s, err error)
  | none ↦
      if not (is_some (load s intent.run_id))
      then (s, err "integration intent owner Run does not exist")
      else elim (load_integration_intent s intent.run_id intent.idempotency_key) [
        | none ↦ persist_new_intent s intent
        | some existing ↦
            if not (existing == intent)
            then (s, err "integration intent replay mismatch")
            else (s, ok existing)
      ]
]

-- `_make_integration_receipt`
unfoldable pub make_integration_receipt :
    Store → IntegrationIntent → String → ℕ → IntegrationReceipt
make_integration_receipt s intent oid sequence = record {
  intent = intent;
  verified_commit_oid = oid;
  receipt_sha256 = s.receipt_digest intent.idempotency_key oid;
  event_sequence = sequence;
}

-- The search for the event of a stored receipt.
abbrev completed_event : ℕ → List RuntimeEvent → Option RuntimeEvent
completed_event sequence [] = none
completed_event sequence (event ∷ events) =
    let rest = completed_event sequence events in
    if event.sequence == sequence && event.event_type == "integration.completed"
    then some event
    else rest

abbrev has_key : Option RuntimeEvent → String → Bool
has_key none key = false
has_key (some event) key = is_text (get "receipt_key" event.entries) key

abbrev pub intent_is : Option IntegrationIntent → IntegrationIntent → Bool
intent_is none intent = false
intent_is (some stored) intent = stored == intent

-- The call for a receipt that exists already.
unfoldable pub replay_receipt :
    Store → IntegrationReceipt → IntegrationIntent → String → Outcome IntegrationReceipt
unfolding receipt_key
replay_receipt s existing intent oid =
    let stored = load_integration_intent s intent.run_id intent.idempotency_key in
    let matching = completed_event existing.event_sequence (events_of (load s intent.run_id)) in
    if not (intent_is stored intent) || not (existing.verified_commit_oid == oid)
    then (s, err "integration receipt replay mismatch")
    else if not (has_key matching (receipt_key "integration.completed:" intent.idempotency_key))
    then (s, err "integration receipt event replay mismatch")
    else (s, ok existing)

-- The last part of the call: the events are appended and the receipt stored.
unfoldable pub store_receipt :
    Store
    → RunState
    → IntegrationIntent
    → String
    → List RuntimeEvent
    → Option (List RuntimeEvent)
    → Outcome IntegrationReceipt
store_receipt s state intent oid previous none = (s, err "observation rejected")
store_receipt s state intent oid previous (some materialized) =
    let receipt = make_integration_receipt s intent oid (length previous + 1) in
    let snapshot : RuntimeSnapshot = record { state = state; events = previous ++ materialized } in
    (
      record s {
        snapshots = put intent.run_id snapshot s.snapshots;
        integration_receipts =
            put (intent.run_id, intent.idempotency_key) receipt s.integration_receipts;
        commit_count = suc s.commit_count;
      },
      ok receipt,
    )

-- The call for a new receipt, from the check of the owner's snapshot on.
unfoldable pub commit_new_receipt :
    Store
    → RunState
    → IntegrationIntent
    → String
    → List EventSpec
    → Option RuntimeSnapshot
    → Outcome IntegrationReceipt
unfolding store_receipt
commit_new_receipt s state intent oid events none =
    (s, err "integration receipt owner Run does not exist")
commit_new_receipt s state intent oid events (some previous) =
    if not (state.run_id == intent.run_id && state.version == previous.state.version + 1)
    then (s, err "Run owner state version is stale")
    else elim (validate_integration_events intent oid events) [
      | some error ↦ (s, err error)
      | none ↦
          if s.fail_next
          then (record s { fail_next = false }, err "injected commit failure")
          else store_receipt s state intent oid previous.events
              (materialize s.secret_registry (length previous.events + 1) events)
    ]

unfoldable pub check_new_receipt : Store → IntegrationIntent → String → Option String
check_new_receipt s intent oid = elim (validate_integration_intent intent) [
  | some error ↦ some error
  | none ↦
      if not (intent_is (load_integration_intent s intent.run_id intent.idempotency_key) intent)
      then some "integration intent is not durably committed"
      else if not (oid == intent.prospective_commit_oid)
      then some "verified head does not match the intent"
      else if head_differs (load_latest_integration_receipt s intent.run_id) intent
      then some "integration intent expected head differs from latest receipt"
      else none
]

unfoldable pub commit_integration_receipt :
    Store → RunState → IntegrationIntent → String → List EventSpec → Outcome IntegrationReceipt
unfolding replay_receipt check_new_receipt commit_new_receipt
commit_integration_receipt s state intent oid events =
    elim (load_integration_receipt s intent.run_id intent.idempotency_key) [
      | some existing ↦ replay_receipt s existing intent oid
      | none ↦ elim (check_new_receipt s intent oid) [
        | some error ↦ (s, err error)
        | none ↦ commit_new_receipt s state intent oid events (load s intent.run_id)
      ]
    ]
