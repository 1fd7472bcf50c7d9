-- ===== src/Actor/Refines/Integrations.antt =====
-- runtime/actor.py: the commands of an integration refine the transitions.
use code_migrator.Base.{
  string_eq, nat_eq, ℕ, ◌+◌, String, ◌≡◌, refl, sym, ap, ◌∙◌, subst, Bool, true, not, ◌&&◌, Option,
  none, some, ◌++◌, ◌==◌, arith, eq_iff, nat_beq_iff, Result, ok, err, if_cases, get, length, inl,
  inr,
}
use code_migrator.Integration.{is_some}
use code_migrator.Actor.Status.{status_eq}
use code_migrator.Actor.Events.{RuntimeEvent, event_for_receipt, receipt_key}
use code_migrator.Actor.State.{RunState, RuntimeSnapshot}
use code_migrator.Actor.Intents.{IntegrationIntent, IntegrationReceipt, intent_eq}
use code_migrator.Actor.Store.{Store, Outcome, load, events_of}
use code_migrator.Actor.Heads.{
  persist_new_intent, load_latest_integration_receipt, head_differs, load_integration_intent,
  intent_is,
}
use code_migrator.Actor.Heads
use code_migrator.Actor.Core.{RunActor}
use code_migrator.Actor.Workflow.{bump}
use code_migrator.Actor.Integrations.{
  is_owned, has_candidate, adopt_intent, persist_integration_intent, integration_events, event_is,
  adopt_reloaded, adopt_integration, record_integration_completed,
}
use code_migrator.Actor.Mailbox.{Message, integration_completed, workflow_command}
use code_migrator.Actor.Meaning.{Meant, integration}
use code_migrator.Actor.Ledger.{Wrote, logged_types, materialize-Numbered, materialize-logged_types}
use code_migrator.Actor.LedgerReceipts.{NewReceipt, IntegrationWritesOr, integration-WritesOr}
use code_migrator.Actor.Redaction.{KeepsKeys, event_for_receipt-append, integration-receipted}
use code_migrator.Actor.Transition.{
  IsCoherent, Evolves, bumps, keeps, writes, moves, log, own, Step-Same, coherent-owned,
  coherent-stored,
}
use code_migrator.Actor.Refines.Inputs.{StepsTo}
use code_migrator.Actor.Refines.Workflow.{raise_error-Step, respond_receipt-Same}

abbrev KeepsSnapshots {ℓ} : {A : Type ℓ} → Store → Store × Result String A → Type 0
KeepsSnapshots s o = o.0.snapshots ≡ s.snapshots

persist_new_intent-keeps :
    (s : Store) (intent : IntegrationIntent) → KeepsSnapshots s (persist_new_intent s intent)
unfolding persist_new_intent
persist_new_intent-keeps s intent = ground arith

persist-keeps :
    (s : Store) (intent : IntegrationIntent)
    → KeepsSnapshots s (Heads.persist_integration_intent s intent)
unfolding Heads.persist_integration_intent
persist-keeps s intent = ground (arith, persist_new_intent-keeps s intent)

adopt_intent-Step :
    {m : Message} (a : RunActor) (intent : IntegrationIntent) (o : Outcome IntegrationIntent)
    → KeepsSnapshots a.store o
    → StepsTo m a (adopt_intent a intent o)
unfolding load
adopt_intent-Step a intent (store, err error) kept = keeps refl refl (ap (get a.run_id) kept)
adopt_intent-Step a intent (store, ok committed) kept =
    if_cases (StepsTo _ a) (not (committed == intent))
      (λ e. keeps refl refl (ap (get a.run_id) kept))
      (λ e. keeps refl refl (ap (get a.run_id) kept))

pub persist_integration_intent-Step :
    {m : Message} (a : RunActor) (s : RunState) (key : String) (intent : IntegrationIntent)
    → StepsTo m a (persist_integration_intent a s key intent)
unfolding persist_integration_intent
persist_integration_intent-Step a s key intent =
    if_cases (StepsTo _ a) (not (is_owned a s intent)) (λ e. raise_error-Step a _)
      (λ e.
        if_cases (StepsTo _ a) (not (has_candidate s intent)) (λ e. raise_error-Step a _)
          (λ e.
            if_cases (StepsTo _ a)
              (not (key == receipt_key "integration.intent:" intent.idempotency_key))
              (λ e. raise_error-Step a _)
              (λ e.
                if_cases (StepsTo _ a)
                  (not (is_some (load_integration_intent a.store a.run_id intent.idempotency_key))
                    && head_differs (load_latest_integration_receipt a.store a.run_id) intent)
                  (λ e. raise_error-Step a _)
                  (λ e. adopt_intent-Step a intent _ (persist-keeps a.store intent)))))

event_is-found :
    (o : Option RuntimeEvent) (x : RuntimeEvent) (n : ℕ)
    → o ≡ some x
    → x.sequence ≡ n
    → event_is o n ≡ true
event_is-found none x n h k = absurd (ground arith)
event_is-found (some y) x n h k =
    let same : y ≡ x = ground arith in
    subst (λ (z : RuntimeEvent). (n == z.sequence) ≡ true) (sym same)
      (ground (arith, nat_beq_iff n x.sequence))

-- Equal snapshots are read alike.
stays :
    (b a : RunActor) → b.run_id ≡ a.run_id → b.store.snapshots ≡ a.store.snapshots → own b ≡ own a
unfolding load
stays b a i kept = cc

-- What the receipt is compared with agrees.
is_reloaded :
    (a : RunActor) (intent : IntegrationIntent) (oid : String) (receipt : IntegrationReceipt)
    (found : Bool)
    → intent.run_id ≡ a.run_id
    → receipt.intent ≡ intent
    → receipt.verified_commit_oid ≡ oid
    → found ≡ true
    → (receipt.intent.run_id == a.run_id
        && receipt.intent.idempotency_key == intent.idempotency_key
        && receipt.verified_commit_oid == oid
        && found)
      ≡ true
is_reloaded a intent oid receipt found mine same head e =
    let runs : receipt.intent.run_id ≡ a.run_id =
      ap (λ (i : IntegrationIntent). i.run_id) same ∙ mine in
    let keys : receipt.intent.idempotency_key ≡ intent.idempotency_key =
      ap (λ (i : IntegrationIntent). i.idempotency_key) same in
    ground (
      arith,
      eq_iff receipt.intent.run_id a.run_id,
      eq_iff receipt.intent.idempotency_key intent.idempotency_key,
      eq_iff receipt.verified_commit_oid oid,
    )

abbrev completes : String → String → IntegrationIntent → String → Message
completes run_id key intent oid = workflow_command run_id key (integration_completed intent oid)

-- A receipt that was stored with its events is found again, and its state adopted.
reloaded-Step :
    (a : RunActor) (s : RunState) (run_id key : String) (intent : IntegrationIntent) (oid : String)
    (store : Store) (receipt : IntegrationReceipt)
    → a.state ≡ some s
    → s.run_id ≡ a.run_id
    → intent.run_id ≡ a.run_id
    → KeepsKeys a.store.secret_registry
    → NewReceipt a.store intent oid (bump s) (integration_events key intent oid) (store, ok receipt)
    → oid ≡ intent.prospective_commit_oid
    → has_candidate s intent ≡ true
    → StepsTo
        (completes run_id key intent oid)
        a
        (adopt_integration a key intent oid (store, ok receipt))
unfolding adopt_integration adopt_reloaded integration_events
reloaded-Step a s run_id key intent oid store receipt known owned mine keys new heads chosen =
    let a' : RunActor = record a { store = store } in
    let events = integration_events key intent oid in
    let there = subst (λ r. Wrote a.store store r (bump s) events) mine new.0 in
    let committed : RuntimeSnapshot = record { state = bump s; events = log a ++ there.0 } in
    let count : receipt.event_sequence ≡ length (log a) + 1 =
      subst (λ r. receipt.event_sequence ≡ length (events_of (load a.store r)) + 1) mine new.4 in
    let (x, found, numbered) =
      integration-receipted a.store.secret_registry (length (log a) + 1) key intent oid there.0 keys
        there.1 in
    let matches =
      event_is-found (event_for_receipt (log a ++ there.0) key) x receipt.event_sequence
        (event_for_receipt-append (log a) there.0 key x found) (numbered ∙ sym count) in
    let agrees = is_reloaded a intent oid receipt _ mine new.1 new.2 matches in
    subst
      (λ o.
        StepsTo (completes run_id key intent oid) a (adopt_reloaded a' key intent oid receipt o))
      (sym there.2)
      (if_cases (StepsTo _ a)
        (not (
          receipt.intent.run_id == a.run_id
          && receipt.intent.idempotency_key == intent.idempotency_key
          && receipt.verified_commit_oid == oid
          && event_is (event_for_receipt committed.events key) receipt.event_sequence))
        (λ e. absurd (ground arith))
        (λ e.
          let adopted : RunActor = record a { store = store; state = some committed.state } in
          Step-Same a adopted _
            (respond_receipt-Same adopted key "integration receipt could not be reloaded")
            (writes (bump s) there.0 refl owned refl
              (subst (λ o. Evolves a.run_id o (bump s)) (sym known) (moves bumps))
              (materialize-Numbered a.store.secret_registry (length (log a) + 1) events there.0
                there.1)
              there.2
              (subst
                (λ o. Meant (completes run_id key intent oid) o (bump s) (logged_types there.0))
                (sym known)
                (subst (Meant (completes run_id key intent oid) (some s) (bump s))
                  (sym (
                    materialize-logged_types a.store.secret_registry (length (log a) + 1) events
                      there.0 there.1))
                  (integration run_id key intent oid heads chosen))))))

-- A receipt that was there already: the state is the one of the snapshot.
replayed-Step :
    {m : Message} (a : RunActor) (s : RunState) (key : String) (intent : IntegrationIntent)
    (oid : String) (store : Store) (receipt : IntegrationReceipt)
    → a.state ≡ some s
    → IsCoherent a
    → store.snapshots ≡ a.store.snapshots
    → StepsTo m a (adopt_integration a key intent oid (store, ok receipt))
unfolding adopt_integration adopt_reloaded
replayed-Step {m = m} a s key intent oid store receipt known h kept =
    let a' : RunActor = record a { store = store } in
    let same : own a' ≡ own a = stays a' a refl kept in
    let (snapshot, there, state) = coherent-stored a s h known in
    subst (λ o. StepsTo m a (adopt_reloaded a' key intent oid receipt o)) (sym (same ∙ there))
      (if_cases (StepsTo _ a)
        (not (
          receipt.intent.run_id == a.run_id
          && receipt.intent.idempotency_key == intent.idempotency_key
          && receipt.verified_commit_oid == oid
          && event_is (event_for_receipt snapshot.events key) receipt.event_sequence))
        (λ e. keeps refl refl same)
        (λ e.
          let adopted : RunActor = record a { store = store; state = some snapshot.state } in
          Step-Same a adopted _
            (respond_receipt-Same adopted key "integration receipt could not be reloaded")
            (keeps refl (ap some state ∙ sym known) same)))

adopt_integration-Step :
    (a : RunActor) (s : RunState) (run_id key : String) (intent : IntegrationIntent) (oid : String)
    (o : Outcome IntegrationReceipt)
    → a.state ≡ some s
    → IsCoherent a
    → intent.run_id ≡ a.run_id
    → KeepsKeys a.store.secret_registry
    → IntegrationWritesOr a.store intent oid (bump s) (integration_events key intent oid) o
    → oid ≡ intent.prospective_commit_oid
    → has_candidate s intent ≡ true
    → StepsTo (completes run_id key intent oid) a (adopt_integration a key intent oid o)
unfolding adopt_integration
adopt_integration-Step a s run_id key intent oid (store, err error) known h mine keys (inl kept)
      heads chosen =
    keeps refl refl (stays (record a { store = store }) a refl kept)
adopt_integration-Step a s run_id key intent oid (store, err error) known h mine keys (inr kept)
      heads chosen =
    keeps refl refl (stays (record a { store = store }) a refl kept)
adopt_integration-Step a s run_id key intent oid (store, ok receipt) known h mine keys (inl new)
      heads chosen =
    reloaded-Step a s run_id key intent oid store receipt known (coherent-owned a s h known) mine
      keys new heads chosen
adopt_integration-Step a s run_id key intent oid (store, ok receipt) known h mine keys (inr kept)
      heads chosen =
    replayed-Step a s key intent oid store receipt known h kept

is_owned-mine :
    (a : RunActor) (s : RunState) (intent : IntegrationIntent) (rest : Bool)
    → (is_owned a s intent && rest) ≡ true
    → intent.run_id ≡ a.run_id
unfolding is_owned
is_owned-mine a s intent rest h = ground (arith, eq_iff intent.run_id a.run_id)

pub record_integration_completed-Step :
    (a : RunActor) (s : RunState) (run_id key : String) (intent : IntegrationIntent) (oid : String)
    → a.state ≡ some s
    → IsCoherent a
    → KeepsKeys a.store.secret_registry
    → StepsTo (completes run_id key intent oid) a (record_integration_completed a s key intent oid)
unfolding record_integration_completed
record_integration_completed-Step a s run_id key intent oid known h keys =
    let named = key == receipt_key "integration.completed:" intent.idempotency_key in
    if_cases (StepsTo _ a) (not (is_owned a s intent && named)) (λ e. raise_error-Step a _)
      (λ e.
        let mine = is_owned-mine a s intent named (ground arith) in
        if_cases (StepsTo _ a) (not (oid == intent.prospective_commit_oid))
          (λ e. raise_error-Step a _)
          (λ heads.
            if_cases (StepsTo _ a) (not (has_candidate s intent)) (λ e. raise_error-Step a _)
              (λ chosen.
                if_cases (StepsTo _ a)
                  (not (
                    intent_is (load_integration_intent a.store a.run_id intent.idempotency_key)
                      intent))
                  (λ e. raise_error-Step a _)
                  (λ e.
                    if_cases (StepsTo _ a)
                      (head_differs (load_latest_integration_receipt a.store a.run_id) intent)
                      (λ e. raise_error-Step a _)
                      (λ e.
                        adopt_integration-Step a s run_id key intent oid _ known h mine keys
                          (integration-WritesOr a.store (bump s) intent oid
                            (integration_events key intent oid))
                          (ground (arith, eq_iff oid intent.prospective_commit_oid))
                          (ground arith))))))
