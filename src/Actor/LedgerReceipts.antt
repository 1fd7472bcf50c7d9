-- ===== src/Actor/LedgerReceipts.antt =====
-- runtime/store.py: the receipts of agent runs and of integrations are written with the state and the log of
-- their run, or nothing is.
use code_migrator.Base.{
  string_eq, nat_eq, pair_eq, ◌+◌, String, ◌≡◌, refl, sym, ap, subst, not, ◌&&◌, Option, none, some,
  List, ◌++◌, ◌==◌, arith, ok, err, length, get, put, if_cases, option_cases, ◌⊎◌, inl, inr,
}
use code_migrator.Actor.Events.{EventSpec, RuntimeEvent}
use code_migrator.Actor.State.{RunState, RuntimeSnapshot}
use code_migrator.Actor.AgentRuns.{AgentRun, AgentRunReceipt}
use code_migrator.Actor.Intents.{
  IntegrationIntent, IntegrationReceipt, validate_integration_events, intent_eq,
}
use code_migrator.Actor.Store.{Store, Outcome, load, materialize, events_of}
use code_migrator.Actor.Terminals.{
  References, commit_agent_run_receipt, commit_owner, store_snapshot, store_terminal,
  validate_agent_receipt, check_references,
}
use code_migrator.Actor.Heads.{
  load_integration_receipt, commit_integration_receipt, commit_new_receipt, store_receipt,
  replay_receipt, check_new_receipt, make_integration_receipt,
}
use code_migrator.Actor.Ledger.{Wrote, get-put_self}

-- What a method that stores a receipt with the state may leave behind.
abbrev pub ReceiptWritesOr :
    {A : Type 0} → Store → String → RunState → List EventSpec → Outcome A → Type 0
ReceiptWritesOr s run_id t events (s', ok receipt) = Wrote s s' run_id t events
ReceiptWritesOr s run_id t events (s', err error) = s'.snapshots ≡ s.snapshots

-- A new receipt of an integration, with the sequence of the first of its events.
abbrev pub NewReceipt :
    Store
    → IntegrationIntent
    → String
    → RunState
    → List EventSpec
    → Outcome IntegrationReceipt
    → Type 0
NewReceipt s intent oid t events (s', ok receipt) =
    Wrote s s' intent.run_id t events
    × (receipt.intent ≡ intent)
    × (receipt.verified_commit_oid ≡ oid)
    × (s'.secret_registry ≡ s.secret_registry)
    × (receipt.event_sequence ≡ length (events_of (load s intent.run_id)) + 1)
NewReceipt s intent oid t events (s', err error) = s'.snapshots ≡ s.snapshots

-- A new snapshot after a log that is known.
Wrote-after :
    (s s' : Store) (r : String) (t : RunState) (events : List EventSpec)
    (previous new : List RuntimeEvent)
    → events_of (load s r) ≡ previous
    → materialize s.secret_registry (length previous + 1) events ≡ some new
    → load s' r ≡ some (record { state = t; events = previous ++ new })
    → Wrote s s' r t events
Wrote-after s s' r t events previous new e made stored =
    let goal : List RuntimeEvent → Type 0 = λ p.
      (materialize s.secret_registry (length p + 1) events ≡ some new)
      × (load s' r ≡ some (record { state = t; events = p ++ new })) in
    let there = subst goal (sym e) (made, stored) in (new, there.0, there.1)

store_snapshot-ReceiptWritesOr :
    (s : Store) (r : AgentRun) (receipt : AgentRunReceipt) (refs : References) (t : RunState)
    (events : List EventSpec) (previous : List RuntimeEvent) (new : Option (List RuntimeEvent))
    → r.owner_id ≡ t.run_id
    → events_of (load s t.run_id) ≡ previous
    → materialize s.secret_registry (length previous + 1) events ≡ new
    → ReceiptWritesOr s t.run_id t events (store_snapshot s r receipt refs t previous new)
unfolding store_terminal load
store_snapshot-ReceiptWritesOr s r receipt refs t events previous none owner e made = refl
store_snapshot-ReceiptWritesOr s r receipt refs t events previous (some new) owner e made =
    let snapshot : RuntimeSnapshot = record { state = t; events = previous ++ new } in
    Wrote-after s (store_snapshot s r receipt refs t previous (some new)).0 t.run_id t events
      previous new e made
      (subst (λ k. get k (put r.owner_id snapshot s.snapshots) ≡ some snapshot) owner
        (get-put_self r.owner_id snapshot s.snapshots))

commit_owner-ReceiptWritesOr :
    (s : Store) (r : AgentRun) (receipt : AgentRunReceipt) (t : RunState) (events : List EventSpec)
    (refs : References)
    → r.owner_id ≡ t.run_id
    → ReceiptWritesOr s t.run_id t events (commit_owner s r receipt (some t) events refs)
unfolding commit_owner
commit_owner-ReceiptWritesOr s r receipt t events refs owner =
    let P = ReceiptWritesOr {A = AgentRunReceipt} s t.run_id t events in
    option_cases P (load s t.run_id) (λ e. refl)
      (λ previous e.
        if_cases P (not (t.version == previous.state.version + 1)) (λ k. refl)
          (λ k.
            store_snapshot-ReceiptWritesOr s r receipt refs t events previous.events _ owner
              (ap events_of e) refl))

-- The receipt of an agent run that has none.
pub agent_receipt-ReceiptWritesOr :
    (s : Store) (r : AgentRun) (receipt : AgentRunReceipt) (t : RunState) (events : List EventSpec)
    (refs : References)
    → r.owner_id ≡ t.run_id
    → get r.agent_run_id s.agent_receipts ≡ none
    → ReceiptWritesOr s t.run_id t events
        (commit_agent_run_receipt s r receipt (some t) events refs)
unfolding commit_agent_run_receipt
agent_receipt-ReceiptWritesOr s r receipt t events refs owner fresh =
    let P = ReceiptWritesOr {A = AgentRunReceipt} s t.run_id t events in
    option_cases P (get r.agent_run_id s.agent_receipts)
      (λ e.
        option_cases P
          (validate_agent_receipt (get r.agent_run_id s.agent_runs) r receipt (some t) events refs)
          (λ k.
            option_cases P (check_references s r refs)
              (λ l.
                if_cases P s.fail_next (λ m. refl)
                  (λ m. commit_owner-ReceiptWritesOr s r receipt t events refs owner))
              (λ error l. refl))
          (λ error k. refl))
      (λ existing e. absurd (ground arith))

store_receipt-ReceiptWritesOr :
    (s : Store) (t : RunState) (intent : IntegrationIntent) (oid : String) (events : List EventSpec)
    (previous : List RuntimeEvent) (new : Option (List RuntimeEvent))
    → events_of (load s intent.run_id) ≡ previous
    → materialize s.secret_registry (length previous + 1) events ≡ new
    → NewReceipt s intent oid t events (store_receipt s t intent oid previous new)
unfolding store_receipt load make_integration_receipt
store_receipt-ReceiptWritesOr s t intent oid events previous none e made = refl
store_receipt-ReceiptWritesOr s t intent oid events previous (some new) e made = (
  Wrote-after s (store_receipt s t intent oid previous (some new)).0 intent.run_id t events previous
      new e made (get-put_self intent.run_id _ s.snapshots),
  refl,
  refl,
  refl,
  ap (λ (p : List RuntimeEvent). length p + 1) (sym e),
)

commit_new_receipt-ReceiptWritesOr :
    (s : Store) (t : RunState) (intent : IntegrationIntent) (oid : String) (events : List EventSpec)
    (o : Option RuntimeSnapshot)
    → load s intent.run_id ≡ o
    → NewReceipt s intent oid t events (commit_new_receipt s t intent oid events o)
unfolding commit_new_receipt
commit_new_receipt-ReceiptWritesOr s t intent oid events none e = refl
commit_new_receipt-ReceiptWritesOr s t intent oid events (some previous) e =
    let P = NewReceipt s intent oid t events in
    if_cases P (not (t.run_id == intent.run_id && t.version == previous.state.version + 1))
      (λ k. refl)
      (λ k.
        option_cases P (validate_integration_events intent oid events)
          (λ l.
            if_cases P s.fail_next (λ m. refl)
              (λ m.
                store_receipt-ReceiptWritesOr s t intent oid events previous.events _
                  (ap events_of e) refl))
          (λ error l. refl))

replay_receipt-keeps :
    (s : Store) (existing : IntegrationReceipt) (intent : IntegrationIntent) (oid : String)
    → (replay_receipt s existing intent oid).0.snapshots ≡ s.snapshots
unfolding replay_receipt
replay_receipt-keeps s existing intent oid = ground arith

-- The receipt of an integration is new, or the same one again, which writes nothing.
abbrev pub IntegrationWritesOr :
    Store
    → IntegrationIntent
    → String
    → RunState
    → List EventSpec
    → Outcome IntegrationReceipt
    → Type 0
IntegrationWritesOr s intent oid t events o =
    NewReceipt s intent oid t events o ⊎ (o.0.snapshots ≡ s.snapshots)

pub integration-WritesOr :
    (s : Store) (t : RunState) (intent : IntegrationIntent) (oid : String) (events : List EventSpec)
    → IntegrationWritesOr s intent oid t events (commit_integration_receipt s t intent oid events)
unfolding commit_integration_receipt
integration-WritesOr s t intent oid events =
    let P = IntegrationWritesOr s intent oid t events in
    option_cases P (load_integration_receipt s intent.run_id intent.idempotency_key)
      (λ e.
        option_cases P (check_new_receipt s intent oid)
          (λ k.
            inl (
              commit_new_receipt-ReceiptWritesOr s t intent oid events (load s intent.run_id) refl))
          (λ error k. inr refl))
      (λ existing e. inr (replay_receipt-keeps s existing intent oid))
