-- ===== src/Actor/Terminals.antt =====
-- runtime/store.py, InMemoryRuntimeStore: the receipt that ends an agent run, and the creation of the record.
use code_migrator.Base.{
  string_eq, nat_eq, pair_eq, ℕ, suc, ◌+◌, String, Bool, true, false, not, ◌&&◌, ◌||◌, Option, none,
  some, List, [], ◌∷◌, ◌++◌, ◌==◌, ok, err, get, put, length, if◌then◌else◌, any, all, leb,
  code_points,
}
use code_migrator.Integration.{is_some}
use code_migrator.Actor.Events.{EventSpec, RuntimeEvent}
use code_migrator.Actor.State.{RunState, RuntimeSnapshot}
use code_migrator.Actor.AgentRuns.{
  AgentRun, AgentRunReceipt, is_terminal_state, same_frozen_identity, same_record,
}
use code_migrator.Actor.Store.{Store, Outcome, CasObject, load, materialize}

-- The CAS references of a call, by their keys.
abbrev pub References : Type 0
References = List (String × CasObject)

abbrev same_object : CasObject → CasObject → Bool
same_object a b = a.digest == b.digest && a.size == b.size

abbrev pub refers_to : Option CasObject → CasObject → Bool
refers_to none object = false
refers_to (some stored) object = same_object stored object

unfoldable pub get_cas_reference : Store → String → String → String → Option CasObject
get_cas_reference s owner_kind owner_id key = get (owner_kind, (owner_id, key)) s.cas_refs

abbrev is_key_character : ℕ → Bool
is_key_character c =
    (leb b'A' c && leb c b'Z')
    || (leb b'a' c && leb c b'z')
    || (leb b'0' c && leb c b'9')
    || c == b'.'
    || c == b'_'
    || c == b':'
    || c == b'-'

unfoldable pub is_reference_key : String → Bool
is_reference_key key =
    let points = code_points key in
    not (key == "") && leb (length points) 256 && all is_key_character points

abbrev is_owner : Option RunState → String → Bool
is_owner none run_id = false
is_owner (some state) run_id = state.run_id == run_id

abbrev pub is_empty {ℓ} : {A : Type ℓ} → List A → Bool
is_empty [] = true
is_empty (x ∷ xs) = false

-- `_validate_agent_receipt`, from the check of the current record on.
unfoldable pub validate_agent_receipt :
    Option AgentRun
    → AgentRun
    → AgentRunReceipt
    → Option RunState
    → List EventSpec
    → References
    → Option String
unfolding is_reference_key
validate_agent_receipt none record_ receipt state events references = some "AgentRun does not exist"
validate_agent_receipt (some current) record_ receipt state events references =
    if not (same_frozen_identity current record_)
    then some "AgentRun frozen identity mismatch"
    else if is_terminal_state current.state || not (is_terminal_state record_.state)
    then some "AgentRun receipt requires a new terminal state"
    else if not (receipt.agent_run_id == record_.agent_run_id)
    then some "AgentRun receipt identity mismatch"
    else if record_.owner_kind == "run" && not (is_owner state record_.owner_id)
    then some "Run owner receipt requires matching Run state"
    else if not (record_.owner_kind == "run") && (is_some state || not (is_empty events))
    then some "Draft owner cannot write Run facts or events"
    else if not (record_.owner_kind == "run") && not (is_empty references)
    then some "Run receipt CAS refs require a Run owner"
    else if any (λ ref. not (is_reference_key ref.0)) references
    then some "CAS reference key is invalid"
    else none

-- The check of one CAS reference against those that are stored.
abbrev check_reference : Store → AgentRun → String × CasObject → Option String
check_reference s record_ (key, object) =
    let stored = get_cas_reference s record_.owner_kind record_.owner_id key in
    if is_some stored && not (refers_to stored object)
    then some "CAS reference key already points to another object"
    else if any (λ item. item.1.digest == object.digest && not (item.1.size == object.size))
        s.cas_refs
    then some "CAS object size mismatch"
    else none

unfoldable pub check_references : Store → AgentRun → References → Option String
check_references s record_ [] = none
check_references s record_ (ref ∷ references) =
    let rest = check_references s record_ references in
    elim (check_reference s record_ ref) [ some error ↦ some error | none ↦ rest ]

abbrev put_references :
    AgentRun
    → References
    → List ((String × (String × String)) × CasObject)
    → List ((String × (String × String)) × CasObject)
put_references record_ [] refs = refs
put_references record_ ((key, object) ∷ references) refs =
    put_references record_ references
      (put (record_.owner_kind, (record_.owner_id, key)) object refs)

-- The record, its receipt and its references are stored.
unfoldable pub store_terminal :
    Store → AgentRun → AgentRunReceipt → References → Outcome AgentRunReceipt
store_terminal s record_ receipt references = (
  record s {
    agent_runs = put record_.agent_run_id record_ s.agent_runs;
    agent_receipts = put record_.agent_run_id receipt s.agent_receipts;
    cas_refs = put_references record_ references s.cas_refs;
    commit_count = suc s.commit_count;
  },
  ok receipt,
)

abbrev pub store_snapshot :
    Store
    → AgentRun
    → AgentRunReceipt
    → References
    → RunState
    → List RuntimeEvent
    → Option (List RuntimeEvent)
    → Outcome AgentRunReceipt
store_snapshot s record_ receipt references state previous none = (s, err "observation rejected")
store_snapshot s record_ receipt references state previous (some materialized) =
    let snapshot : RuntimeSnapshot = record { state = state; events = previous ++ materialized } in
    store_terminal (record s { snapshots = put record_.owner_id snapshot s.snapshots }) record_
      receipt references

-- The state and the events of the owner are committed with the record.
unfoldable pub commit_owner :
    Store
    → AgentRun
    → AgentRunReceipt
    → Option RunState
    → List EventSpec
    → References
    → Outcome AgentRunReceipt
unfolding store_terminal
commit_owner s record_ receipt none events references = store_terminal s record_ receipt references
commit_owner s record_ receipt (some state) events references = elim (load s state.run_id) [
  | none ↦ (s, err "runtime run does not exist")
  | some previous ↦
      if not (state.version == previous.state.version + 1)
      then (s, err "Run owner state version is stale")
      else store_snapshot s record_ receipt references state previous.events
          (materialize s.secret_registry (length previous.events + 1) events)
]

abbrev is_record : Option AgentRun → AgentRun → Bool
is_record none record_ = false
is_record (some stored) record_ = same_record stored record_

-- The call for a record that has a receipt already.
unfoldable pub replay_terminal :
    Store → AgentRunReceipt → AgentRun → AgentRunReceipt → References → Outcome AgentRunReceipt
replay_terminal s existing record_ receipt references =
    let stored = get record_.agent_run_id s.agent_runs in
    if not (existing.category == receipt.category)
      || not (existing.agent_run_id == receipt.agent_run_id)
      || not (is_record stored record_)
      || any
          (λ ref.
            not (refers_to (get_cas_reference s record_.owner_kind record_.owner_id ref.0) ref.1))
          references
    then (s, err "AgentRun receipt replay mismatch")
    else (s, ok existing)

unfoldable pub commit_agent_run_receipt :
    Store
    → AgentRun
    → AgentRunReceipt
    → Option RunState
    → List EventSpec
    → References
    → Outcome AgentRunReceipt
unfolding replay_terminal commit_owner
commit_agent_run_receipt s record_ receipt state events references =
    let current = get record_.agent_run_id s.agent_runs in
    elim (get record_.agent_run_id s.agent_receipts) [
      | some existing ↦ replay_terminal s existing record_ receipt references
      | none ↦ elim (validate_agent_receipt current record_ receipt state events references) [
        | some error ↦ (s, err error)
        | none ↦ elim (check_references s record_ references) [
          | some error ↦ (s, err error)
          | none ↦
              if s.fail_next
              then (record s { fail_next = false }, err "injected commit failure")
              else commit_owner s record_ receipt state events references
        ]
      ]
    ]
