-- ===== src/Actor/Candidates.antt =====
-- runtime/actor.py: `_validate_candidate_claim`. The digest of a checkpoint receipt and the verifier are
-- functions, the latter where the actor has one.
use code_migrator.Base.{
  string_eq, nat_eq, option_eq, ℕ, String, Bool, false, not, ◌&&◌, Option, none, some, List, [],
  ◌∷◌, ◌==◌, get, if◌then◌else◌, Result, ok, err,
}
use code_migrator.Integration.{is_some}
use code_migrator.Actor.State.{CandidateCheckpointFact, is_candidate_of}
use code_migrator.Actor.AgentRuns.{
  AgentRun, AgentRunReceipt, SliceGenerationRef, SessionExit, is_write_kind, phase_value,
  session_state_value, exit_value,
}
use code_migrator.Actor.Core.{RunActor}

-- A receipt of workspace/checkpoint.py, with what its manifest says.
pub record CheckpointReceipt : Type 0 where
  pub run_id : String
  pub slice_id : String
  pub generation : ℕ
  pub expected_candidate_oid : String
  pub new_candidate_oid : String
  pub manifest_run_id : String
  pub manifest_slice_id : String
  pub manifest_generation : ℕ
  pub manifest_candidate_oid : String
  pub scope_check_passed : Bool

pub record CandidateCheckpointClaim : Type 0 where
  pub agent_run_id : String
  pub receipt : Option CheckpointReceipt

pub record CandidateVerifier : Type 0 where
  pub checkpoint_receipt_digest : CheckpointReceipt → String
  pub is_committed_receipt : Option (CheckpointReceipt → Bool)

abbrev is_exit_completed : Option SessionExit → Bool
is_exit_completed none = false
is_exit_completed (some e) = exit_value e == "COMPLETED"

-- Whether a stored receipt ends the agent run.
unfoldable pub is_terminal_receipt : Option AgentRunReceipt → String → Bool
is_terminal_receipt none agent_run_id = false
is_terminal_receipt (some receipt) agent_run_id =
    receipt.agent_run_id == agent_run_id && receipt.category == "session.terminal"

-- Whether the record is of a completed write session of this run.
unfoldable pub is_completed_write : String → AgentRun → Bool
is_completed_write run_id r =
    r.owner_kind == "run"
    && r.owner_id == run_id
    && phase_value r.phase == "EXECUTE"
    && is_write_kind r.session_kind
    && session_state_value r.state == "CLOSED"
    && is_exit_completed r.exit
    && is_some r.result_sha256
    && is_some r.write_scope_sha256

-- Whether the receipt is one of the slice and generation, and extends its own candidate.
unfoldable pub receipt_matches : String → SliceGenerationRef → CheckpointReceipt → Bool
receipt_matches run_id ref receipt =
    ref.baseline_candidate_oid == some receipt.expected_candidate_oid
    && receipt.run_id == run_id
    && receipt.slice_id == ref.slice_id
    && receipt.generation == ref.generation
    && receipt.manifest_run_id == run_id
    && receipt.manifest_slice_id == ref.slice_id
    && receipt.manifest_generation == ref.generation
    && receipt.manifest_candidate_oid == receipt.expected_candidate_oid
    && receipt.scope_check_passed
    && not (receipt.new_candidate_oid == receipt.expected_candidate_oid)

-- The first accepted fact that passes a test.
abbrev pub find_fact :
    (CandidateCheckpointFact → Bool) → List CandidateCheckpointFact → Option CandidateCheckpointFact
find_fact p [] = none
find_fact p (fact ∷ facts) = let rest = find_fact p facts in if p fact then some fact else rest

-- A receipt that was accepted before is accepted again for the same claim only.
unfoldable pub reclaim :
    CandidateCheckpointFact → AgentRun → CheckpointReceipt → Result String CandidateCheckpointFact
reclaim previous r receipt =
    if previous.agent_run_id == r.agent_run_id
      && previous.candidate_oid == receipt.new_candidate_oid
      && previous.slice_id == receipt.slice_id
      && previous.generation == receipt.generation
    then ok previous
    else err "candidate checkpoint receipt was previously claimed"

-- The object that the receipt must extend: the accepted candidate, or else the baseline.
abbrev expected_current : Option CandidateCheckpointFact → CheckpointReceipt → String
expected_current none receipt = receipt.expected_candidate_oid
expected_current (some current) receipt = current.candidate_oid

unfoldable pub new_fact :
    AgentRun
    → SliceGenerationRef
    → CheckpointReceipt
    → String
    → List CandidateCheckpointFact
    → Result String CandidateCheckpointFact
new_fact r ref receipt digest accepted =
    let current = find_fact (is_candidate_of ref.slice_id ref.generation) accepted in
    if not (receipt.expected_candidate_oid == expected_current current receipt)
    then err "candidate checkpoint does not extend the accepted OID"
    else ok (record {
      agent_run_id = r.agent_run_id;
      slice_id = ref.slice_id;
      generation = ref.generation;
      expected_candidate_oid = receipt.expected_candidate_oid;
      candidate_oid = receipt.new_candidate_oid;
      receipt_sha256 = digest;
    })

abbrev owner_validation : Result String CandidateCheckpointFact
owner_validation = err "candidate checkpoint receipt failed owner validation"

unfoldable pub claim_of_run :
    RunActor
    → CandidateVerifier
    → (CheckpointReceipt → Bool)
    → CheckpointReceipt
    → AgentRun
    → Option SliceGenerationRef
    → List CandidateCheckpointFact
    → Result String CandidateCheckpointFact
unfolding reclaim new_fact
claim_of_run a v is_committed receipt r none accepted = owner_validation
claim_of_run a v is_committed receipt r (some ref) accepted =
    let digest = v.checkpoint_receipt_digest receipt in
    if not (
      is_completed_write a.run_id r
      && is_terminal_receipt (get r.agent_run_id a.store.agent_receipts) r.agent_run_id
      && r.candidate_checkpoint_sha256 == some digest
      && receipt_matches a.run_id ref receipt)
    then owner_validation
    else if not (is_committed receipt)
    then err "candidate checkpoint receipt is not committed by M-08"
    else elim (find_fact (λ fact. fact.receipt_sha256 == digest) accepted) [
      | some previous ↦ reclaim previous r receipt
      | none ↦ new_fact r ref receipt digest accepted
    ]

abbrev claim_of_record :
    RunActor
    → CandidateVerifier
    → (CheckpointReceipt → Bool)
    → CheckpointReceipt
    → Option AgentRun
    → List CandidateCheckpointFact
    → Result String CandidateCheckpointFact
claim_of_record a v is_committed receipt none accepted = owner_validation
claim_of_record a v is_committed receipt (some r) accepted =
    claim_of_run a v is_committed receipt r r.slice_ref accepted

abbrev claim_with :
    RunActor
    → CandidateVerifier
    → Option (CheckpointReceipt → Bool)
    → Option CheckpointReceipt
    → String
    → List CandidateCheckpointFact
    → Result String CandidateCheckpointFact
claim_with a v (some is_committed) (some receipt) agent_run_id accepted =
    claim_of_record a v is_committed receipt (get agent_run_id a.store.agent_runs) accepted
claim_with a v _ _ agent_run_id accepted =
    err "completed write AgentRun has no candidate checkpoint receipt"

-- `_validate_candidate_claim`
unfoldable pub validate_candidate_claim :
    RunActor
    → CandidateVerifier
    → CandidateCheckpointClaim
    → List CandidateCheckpointFact
    → Result String CandidateCheckpointFact
unfolding claim_of_run
validate_candidate_claim a v claim accepted =
    claim_with a v v.is_committed_receipt claim.receipt claim.agent_run_id accepted
