-- ===== src/Actor/Intents.antt =====
-- core/models/verification.py, runtime/contracts.py and runtime/store.py: the intent to integrate a commit,
-- the receipt of its integration, and their checks.
use code_migrator.Base.{
  PyEq, string_eq, nat_eq, ℕ, String, Bool, true, not, ◌&&◌, ◌||◌, Option, none, some, List, [],
  ◌∷◌, ◌==◌, ◌≡◌, ◌↔◌, arith, eq_iff, nat_beq_iff, get, length, all, leb, code_points,
  if◌then◌else◌,
}
use code_migrator.Actor.Events.{EventSpec, is_text, is_number, receipt_key}

pub record IntegrationIntent : Type 0 where
  pub run_id : String
  pub slice_id : String
  pub generation : ℕ
  pub expected_verified_oid : String
  pub prospective_commit_oid : String
  pub guard_sha256 : String
  pub verification_fingerprint : String
  pub idempotency_key : String

abbrev pub intent_beq : IntegrationIntent → IntegrationIntent → Bool
intent_beq a b =
    a.run_id == b.run_id
    && a.slice_id == b.slice_id
    && a.generation == b.generation
    && a.expected_verified_oid == b.expected_verified_oid
    && a.prospective_commit_oid == b.prospective_commit_oid
    && a.guard_sha256 == b.guard_sha256
    && a.verification_fingerprint == b.verification_fingerprint
    && a.idempotency_key == b.idempotency_key

pub intent_beq_iff : (a b : IntegrationIntent) → (intent_beq a b ≡ true) ↔ (a ≡ b)
intent_beq_iff a b = ground (
  arith,
  eq_iff a.run_id b.run_id,
  eq_iff a.slice_id b.slice_id,
  nat_beq_iff a.generation b.generation,
  eq_iff a.expected_verified_oid b.expected_verified_oid,
  eq_iff a.prospective_commit_oid b.prospective_commit_oid,
  eq_iff a.guard_sha256 b.guard_sha256,
  eq_iff a.verification_fingerprint b.verification_fingerprint,
  eq_iff a.idempotency_key b.idempotency_key,
)

instance abbrev pub intent_eq : PyEq IntegrationIntent
intent_eq = record { equals = intent_beq; equals_iff = intent_beq_iff }

pub record IntegrationReceipt : Type 0 where
  pub intent : IntegrationIntent
  pub verified_commit_oid : String
  pub receipt_sha256 : String
  pub event_sequence : ℕ

-- A character of `[0-9a-f]`.
abbrev is_hex : ℕ → Bool
is_hex c = (leb b'0' c && leb c b'9') || (leb b'a' c && leb c b'f')

-- `re.fullmatch(r"[0-9a-f]{n}", value)`
unfoldable pub is_hex_of : ℕ → String → Bool
is_hex_of n value = let points = code_points value in length points == n && all is_hex points

abbrev zero_oid : String
zero_oid = "0000000000000000000000000000000000000000"

-- `_validate_integration_intent`: the error, if it raises.
unfoldable pub validate_integration_intent : IntegrationIntent → Option String
unfolding is_hex_of
validate_integration_intent intent =
    if not (
      is_hex_of 64 intent.guard_sha256
      && is_hex_of 64 intent.verification_fingerprint
      && is_hex_of 64 intent.idempotency_key)
    then some "IntegrationIntent digests are invalid"
    else if not
        (is_hex_of 40 intent.expected_verified_oid && is_hex_of 40 intent.prospective_commit_oid)
    then some "IntegrationIntent Git OIDs are invalid"
    else if intent.expected_verified_oid == intent.prospective_commit_oid
        || intent.prospective_commit_oid == zero_oid
    then some "IntegrationIntent must advance to a non-zero commit"
    else none

-- `_validate_integration_events`
unfoldable pub validate_integration_events :
    IntegrationIntent → String → List EventSpec → Option String
unfolding receipt_key
validate_integration_events intent oid (completed ∷ advanced ∷ []) =
    if completed.event_type == "integration.completed"
      && is_text (get "receipt_key" completed.entries)
          (receipt_key "integration.completed:" intent.idempotency_key)
      && is_text (get "slice_id" completed.entries) intent.slice_id
      && is_number (get "generation" completed.entries) intent.generation
      && is_text (get "verified_commit_oid" completed.entries) oid
      && advanced.event_type == "verified.advanced"
      && is_text (get "slice_id" advanced.entries) intent.slice_id
      && is_number (get "generation" advanced.entries) intent.generation
      && is_text (get "commit_oid" advanced.entries) oid
    then none
    else some "integration receipt Run events do not match its intent"
validate_integration_events intent oid _ =
    some "integration receipt requires its ordered Run events"
