-- ===== src/Actor/Store.antt =====
-- runtime/store.py, InMemoryRuntimeStore: the facts of runs that the actor writes. `SecretRegistry` is a
-- function that redacts an event's data or refuses it, the digest of a receipt a function; locks make each
-- method one step. Evolution segments, drafts and graph checkpoints are left out.
use code_migrator.Base.{
  string_eq, nat_eq, pair_eq, ℕ, suc, ◌+◌, String, Bool, false, Option, none, some, List, [], ◌∷◌,
  ◌++◌, Result, ok, err, get, put, pop, length, if◌then◌else◌,
}
use code_migrator.Integration.{is_some}
use code_migrator.Actor.Events.{Data, EventSpec, RuntimeEvent}
use code_migrator.Actor.State.{RunState, RuntimeSnapshot}
use code_migrator.Actor.AgentRuns.{AgentRun, AgentRunReceipt}
use code_migrator.Actor.Intents.{IntegrationIntent, IntegrationReceipt}

pub record CasObject : Type 0 where
  pub digest : String
  pub size : ℕ

-- `_snapshots`, `_agent_runs`, `_agent_receipts`, `_cas_refs` by owner kind, owner and key,
-- `_integration_intents` and `_integration_receipts` by run and idempotency key.
pub record Store : Type 0 where
  pub snapshots : List (String × RuntimeSnapshot)
  pub agent_runs : List (String × AgentRun)
  pub agent_receipts : List (String × AgentRunReceipt)
  pub cas_refs : List ((String × (String × String)) × CasObject)
  pub integration_intents : List ((String × String) × IntegrationIntent)
  pub integration_receipts : List ((String × String) × IntegrationReceipt)
  pub fail_next : Bool
  pub commit_count : ℕ
  pub secret_registry : Data → Option Data
  pub receipt_digest : String → String → String

-- A method that may raise `StoreCommitError`.
abbrev pub Outcome : Type 0 → Type 0
Outcome A = Store × Result String A

abbrev pub cons_event : RuntimeEvent → Option (List RuntimeEvent) → Option (List RuntimeEvent)
cons_event event none = none
cons_event event (some events) = some (event ∷ events)

-- The events as they are stored: numbered from the first sequence on, their data redacted.
unfoldable pub materialize : (Data → Option Data) → ℕ → List EventSpec → Option (List RuntimeEvent)
materialize redact sequence [] = some []
materialize redact sequence (event ∷ events) =
    let rest = materialize redact (suc sequence) events in
    elim (redact event.entries) [
      | none ↦ none
      | some entries ↦
          cons_event
            (record { sequence = sequence; event_type = event.event_type; entries = entries }) rest
    ]

abbrev pub events_of : Option RuntimeSnapshot → List RuntimeEvent
events_of none = []
events_of (some snapshot) = snapshot.events

unfoldable pub load : Store → String → Option RuntimeSnapshot
load s run_id = get run_id s.snapshots

-- The snapshot is replaced, or nothing where the data of an event is refused.
unfoldable pub append_events :
    Store → RunState → List RuntimeEvent → Option (List RuntimeEvent) → Outcome RuntimeSnapshot
append_events s state previous none = (s, err "observation rejected")
append_events s state previous (some materialized) =
    let snapshot : RuntimeSnapshot = record { state = state; events = previous ++ materialized } in
    (
      record s {
        snapshots = put state.run_id snapshot s.snapshots;
        commit_count = suc s.commit_count;
      },
      ok snapshot,
    )

-- `_write`
unfoldable pub write : Store → RunState → List EventSpec → Outcome RuntimeSnapshot
unfolding append_events load
write s state events =
    let previous = events_of (load s state.run_id) in
    if s.fail_next
    then (record s { fail_next = false }, err "injected commit failure")
    else append_events s state previous (materialize s.secret_registry (length previous + 1) events)

-- `create`; the flag is whether it is called in an active transaction of this store.
unfoldable pub create : Store → Bool → RunState → List EventSpec → Outcome RuntimeSnapshot
unfolding load
create s in_transaction state events =
    if in_transaction
    then write s state events
    else if is_some (load s state.run_id)
    then (s, err "run already exists")
    else write s state events

unfoldable pub commit : Store → RunState → List EventSpec → Outcome RuntimeSnapshot
unfolding load
commit s state events =
    if is_some (load s state.run_id) then write s state events else (s, err "run does not exist")

-- The callback of `create` when its transaction is rolled back.
unfoldable pub forget : Store → String → Store
forget s run_id = record s { snapshots = pop run_id s.snapshots }
