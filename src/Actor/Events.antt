-- ===== src/Actor/Events.antt =====
-- runtime/contracts.py and runtime/actor.py: events and their data, receipts, and the searches of a
-- log. The field `data` is `entries` here, and an event has no timestamp. A utilization, a floating-point number in the source, is kept
-- as the usage and the limits that it is computed from.
use Prim.Native.String.{◌++◌ as concat}
use code_migrator.Base.{
  string_eq, nat_eq, ℕ, String, Bool, false, ◌&&◌, Option, none, some, List, [], ◌∷◌, ◌==◌, get,
  if◌then◌else◌, any, Result, ok, err, ltb, ◌||◌,
}
use code_migrator.Wallet.Account.{Amounts}

pub data Value : Type 0 where
  text : String → Value
  number : ℕ → Value
  flag : Bool → Value
  nothing : Value
  utilization : Amounts → Amounts → Value

abbrev pub Data : Type 0
Data = List (String × Value)

pub record EventSpec : Type 0 where
  pub event_type : String
  pub entries : Data

abbrev pub spec : String → Data → EventSpec
spec event_type entries = record { event_type = event_type; entries = entries }

pub record RuntimeEvent : Type 0 where
  pub sequence : ℕ
  pub event_type : String
  pub entries : Data

-- `value == s` of an entry of the data and a text.
abbrev pub is_text : Option Value → String → Bool
is_text (some (text t)) s = t == s
is_text _ s = false

abbrev pub is_number : Option Value → ℕ → Bool
is_number (some (number n)) m = n == m
is_number _ m = false

-- `value is True`
abbrev pub is_true : Option Value → Bool
is_true (some (flag b)) = b
is_true _ = false

-- `_event_for_receipt`: the last event of the log with the receipt's key.
unfoldable pub event_for_receipt : List RuntimeEvent → String → Option RuntimeEvent
event_for_receipt [] key = none
event_for_receipt (event ∷ events) key = elim (event_for_receipt events key) [
  | some later ↦ some later
  | none ↦ if is_text (get "receipt_key" event.entries) key then some event else none
]

unfoldable pub has_agent_run_event : List RuntimeEvent → String → String → Bool
has_agent_run_event events event_type agent_run_id =
    any
      (λ (event : RuntimeEvent).
        event.event_type == event_type && is_text (get "agent_run_id" event.entries) agent_run_id)
      events

-- `has_committed_owner_receipt` of runtime/recovery.py.
unfoldable pub has_committed_owner_receipt : List RuntimeEvent → String → Bool
has_committed_owner_receipt events key =
    if key == ""
    then false
    else any (λ (event : RuntimeEvent). is_text (get "receipt_key" event.entries) key) events

-- The keys of receipts.
unfoldable pub receipt_key : String → String → String
receipt_key kind id = concat kind id

pub record ActorPhaseReceipt : Type 0 where
  pub run_id : String
  pub receipt_key : String
  pub event_sequence : ℕ

-- `__post_init__`
unfoldable pub actor_phase_receipt : String → String → ℕ → Result String ActorPhaseReceipt
actor_phase_receipt run_id key sequence =
    if key == "" || ltb sequence 1
    then err "actor phase receipt is invalid"
    else ok (record { run_id = run_id; receipt_key = key; event_sequence = sequence })
