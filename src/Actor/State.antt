-- ===== src/Actor/State.antt =====
-- runtime/contracts.py: the state of a run and its snapshot; core/models/slice.py: an active dispatch.
use code_migrator.Base.{
  PyEq, string_eq, pair_eq, nat_eq, ℕ, String, Bool, true, false, Option, none, List, [], ◌==◌,
  ◌&&◌, ◌≡◌, ◌↔◌, arith, eq_iff,
}
use code_migrator.Wallet.Account.{Amounts, no_usage}
use code_migrator.Actor.Status.{RunStatus, FailureReason, created}
use code_migrator.Actor.Events.{RuntimeEvent}

-- The subject is kept as its canonical JSON.
pub record ActiveDispatch : Type 0 where
  pub dispatch_attempt_id : String
  pub subject : String
  pub check_id : String
  pub tested_commit_oid : String

abbrev pub dispatch_beq : ActiveDispatch → ActiveDispatch → Bool
dispatch_beq s t =
    s.dispatch_attempt_id == t.dispatch_attempt_id
    && s.subject == t.subject
    && s.check_id == t.check_id
    && s.tested_commit_oid == t.tested_commit_oid

pub dispatch_beq_iff : (s t : ActiveDispatch) → (dispatch_beq s t ≡ true) ↔ (s ≡ t)
dispatch_beq_iff s t = ground (
  arith,
  eq_iff s.dispatch_attempt_id t.dispatch_attempt_id,
  eq_iff s.subject t.subject,
  eq_iff s.check_id t.check_id,
  eq_iff s.tested_commit_oid t.tested_commit_oid,
)

instance abbrev pub dispatch_eq : PyEq ActiveDispatch
dispatch_eq = record { equals = dispatch_beq; equals_iff = dispatch_beq_iff }

-- `_dispatch_key`
abbrev pub dispatch_key : ActiveDispatch → String → String × (String × String)
dispatch_key dispatch run_id = (run_id, (dispatch.subject, dispatch.check_id))

pub record CandidateCheckpointFact : Type 0 where
  pub agent_run_id : String
  pub slice_id : String
  pub generation : ℕ
  pub expected_candidate_oid : String
  pub candidate_oid : String
  pub receipt_sha256 : String

-- The request that created the run is kept as its canonical JSON.
pub record RunState : Type 0 where
  pub run_id : String
  pub status : RunStatus
  pub version : ℕ
  pub cancel_requested : Bool
  pub failure_reason : Option FailureReason
  pub new_calls_enabled : Bool
  pub budget_usage : Amounts
  pub budget_warning_emitted : Bool
  pub active_dispatches : List ActiveDispatch
  pub continuation_counts : List (ℕ × ℕ)
  pub terminal_slice_failures : List String
  pub adopted_advice_ids : List String
  pub pending_advice_ids : List String
  pub reporting_halted : Bool
  pub create_request : Option String
  pub frozen_plan_sha256 : Option String
  pub candidate_checkpoints : List CandidateCheckpointFact

-- `RunState(run_id)`, with the defaults of the fields.
abbrev pub run_state : String → RunState
run_state run_id = record {
  run_id = run_id;
  status = created;
  version = 0;
  cancel_requested = false;
  failure_reason = none;
  new_calls_enabled = true;
  budget_usage = no_usage;
  budget_warning_emitted = false;
  active_dispatches = [];
  continuation_counts = [];
  terminal_slice_failures = [];
  adopted_advice_ids = [];
  pending_advice_ids = [];
  reporting_halted = false;
  create_request = none;
  frozen_plan_sha256 = none;
  candidate_checkpoints = [];
}

pub record RuntimeSnapshot : Type 0 where
  pub state : RunState
  pub events : List RuntimeEvent

-- Whether an accepted candidate is of a slice and generation.
abbrev pub is_candidate_of : String → ℕ → CandidateCheckpointFact → Bool
is_candidate_of slice_id generation fact =
    fact.slice_id == slice_id && fact.generation == generation
