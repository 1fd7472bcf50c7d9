-- ===== src/Actor/AgentRuns.antt =====
-- runtime/agent_runs.py, runtime/loop_contracts.py and core/enums.py: the record of one agent session,
-- its terminal states, and the identity that a replay may not change. Identifiers and digests are
-- texts; a slice reference is its slice, generation and baseline.
use code_migrator.Base.{
  string_eq, option_eq, nat_eq, ℕ, String, Bool, true, false, not, ◌&&◌, ◌||◌, Option, none, some,
  [], ◌∷◌, ◌==◌, Result, ok, err, if◌then◌else◌,
}
use code_migrator.Actor.Events.{Value, EventSpec, Data, spec, text, number, nothing, receipt_key}

pub data Phase : Type 0 where
  plan : Phase
  execute : Phase
  verify : Phase
  report : Phase

abbrev pub phase_value : Phase → String
phase_value plan = "PLAN"
phase_value execute = "EXECUTE"
phase_value verify = "VERIFY"
phase_value report = "REPORT"

pub data SessionKind : Type 0 where
  analyze_auxiliary : SessionKind
  plan_auxiliary : SessionKind
  contract : SessionKind
  implementation : SessionKind
  test_translation : SessionKind
  test_generation : SessionKind
  explore_coordinator : SessionKind
  execute_supervisor : SessionKind
  repair_session : SessionKind

abbrev pub session_kind_value : SessionKind → String
session_kind_value analyze_auxiliary = "ANALYZE_AUXILIARY"
session_kind_value plan_auxiliary = "PLAN_AUXILIARY"
session_kind_value contract = "CONTRACT"
session_kind_value implementation = "IMPLEMENTATION"
session_kind_value test_translation = "TEST_TRANSLATION"
session_kind_value test_generation = "TEST_GENERATION"
session_kind_value explore_coordinator = "EXPLORE_COORDINATOR"
session_kind_value execute_supervisor = "EXECUTE_SUPERVISOR"
session_kind_value repair_session = "REPAIR_SESSION"

-- The kinds of session that write.
abbrev pub is_write_kind : SessionKind → Bool
is_write_kind contract = true
is_write_kind implementation = true
is_write_kind test_translation = true
is_write_kind test_generation = true
is_write_kind repair_session = true
is_write_kind _ = false

pub data SessionState : Type 0 where
  session_created : SessionState
  running : SessionState
  checkpoint_pending : SessionState
  closed : SessionState
  invalidated : SessionState
  session_failed : SessionState

abbrev pub session_state_value : SessionState → String
session_state_value session_created = "CREATED"
session_state_value running = "RUNNING"
session_state_value checkpoint_pending = "CHECKPOINT_PENDING"
session_state_value closed = "CLOSED"
session_state_value invalidated = "INVALIDATED"
session_state_value session_failed = "FAILED"

pub data SessionExit : Type 0 where
  exit_completed : SessionExit
  exit_failed : SessionExit
  exit_budget_exhausted : SessionExit
  exit_segment_stopped : SessionExit
  exit_invalidated : SessionExit

abbrev pub exit_value : SessionExit → String
exit_value exit_completed = "COMPLETED"
exit_value exit_failed = "FAILED"
exit_value exit_budget_exhausted = "BUDGET_EXHAUSTED"
exit_value exit_segment_stopped = "SEGMENT_STOPPED"
exit_value exit_invalidated = "INVALIDATED"

pub record SliceGenerationRef : Type 0 where
  pub slice_id : String
  pub generation : ℕ
  pub baseline_candidate_oid : Option String

abbrev slice_ref_beq : Option SliceGenerationRef → Option SliceGenerationRef → Bool
slice_ref_beq none none = true
slice_ref_beq (some a) (some b) =
    a.slice_id == b.slice_id
    && a.generation == b.generation
    && a.baseline_candidate_oid == b.baseline_candidate_oid
slice_ref_beq _ _ = false

pub record AgentRun : Type 0 where
  pub agent_run_id : String
  pub owner_kind : String
  pub owner_id : String
  pub logical_task_key : String
  pub phase : Phase
  pub session_kind : SessionKind
  pub thread_id : String
  pub model_binding_sha256 : String
  pub context_sha256 : String
  pub toolset_sha256 : String
  pub template_sha256 : String
  pub slice_ref : Option SliceGenerationRef
  pub write_scope_sha256 : Option String
  pub checkpoint_sha256 : Option String
  pub candidate_checkpoint_sha256 : Option String
  pub result_sha256 : Option String
  pub usage_sha256 : Option String
  pub retry_of : Option String
  pub continuation_of : Option String
  pub restarted_from : Option String
  pub state : SessionState
  pub exit : Option SessionExit

-- `is_terminal`: the states with an entry in `_TERMINAL_EXITS`.
abbrev pub is_terminal_state : SessionState → Bool
is_terminal_state closed = true
is_terminal_state session_failed = true
is_terminal_state invalidated = true
is_terminal_state _ = false

-- The check of `__post_init__` that state and exit agree.
unfoldable pub exit_matches : SessionState → Option SessionExit → Bool
exit_matches closed (some exit_completed) = true
exit_matches closed (some exit_segment_stopped) = true
exit_matches closed _ = false
exit_matches session_failed (some exit_failed) = true
exit_matches session_failed (some exit_budget_exhausted) = true
exit_matches session_failed _ = false
exit_matches invalidated (some exit_invalidated) = true
exit_matches invalidated _ = false
exit_matches _ none = true
exit_matches _ (some e) = false

unfoldable pub same_creation_identity : AgentRun → AgentRun → Bool
same_creation_identity self other =
    (self.owner_kind == other.owner_kind
      && self.owner_id == other.owner_id
      && self.logical_task_key == other.logical_task_key
      && phase_value self.phase == phase_value other.phase
      && session_kind_value self.session_kind == session_kind_value other.session_kind
      && slice_ref_beq self.slice_ref other.slice_ref
      && self.model_binding_sha256 == other.model_binding_sha256
      && self.context_sha256 == other.context_sha256
      && self.toolset_sha256 == other.toolset_sha256
      && self.template_sha256 == other.template_sha256
      && self.write_scope_sha256 == other.write_scope_sha256
      && self.retry_of == other.retry_of
      && self.continuation_of == other.continuation_of
      && self.restarted_from == other.restarted_from)
    && (not (self.agent_run_id == other.agent_run_id) || self.thread_id == other.thread_id)

unfoldable pub same_frozen_identity : AgentRun → AgentRun → Bool
unfolding same_creation_identity
same_frozen_identity self other =
    self.agent_run_id == other.agent_run_id
    && self.thread_id == other.thread_id
    && same_creation_identity self other

abbrev exit_beq : Option SessionExit → Option SessionExit → Bool
exit_beq none none = true
exit_beq (some a) (some b) = exit_value a == exit_value b
exit_beq _ _ = false

-- `==` of the data class: every field.
unfoldable pub same_record : AgentRun → AgentRun → Bool
unfolding same_frozen_identity
same_record self other =
    same_frozen_identity self other
    && self.checkpoint_sha256 == other.checkpoint_sha256
    && self.candidate_checkpoint_sha256 == other.candidate_checkpoint_sha256
    && self.result_sha256 == other.result_sha256
    && self.usage_sha256 == other.usage_sha256
    && session_state_value self.state == session_state_value other.state
    && exit_beq self.exit other.exit

pub record AgentRunReceipt : Type 0 where
  pub receipt_id : String
  pub agent_run_id : String
  pub category : String

abbrev pub same_receipt : AgentRunReceipt → AgentRunReceipt → Bool
same_receipt a b =
    a.receipt_id == b.receipt_id && a.agent_run_id == b.agent_run_id && a.category == b.category

-- The entries of a lifecycle event that tell the slice.
abbrev slice_entries : Option SliceGenerationRef → Data
slice_entries none = []
slice_entries (some ref) =
    ("slice_id", text ref.slice_id) ∷ ("generation", number ref.generation) ∷ []

abbrev exit_entry : Option SessionExit → Value
exit_entry none = nothing
exit_entry (some e) = text (exit_value e)

-- `agent_run_lifecycle_spec(record)` and `agent_run_lifecycle_spec(record, receipt)`
unfoldable pub started_spec : AgentRun → Result String EventSpec
unfolding receipt_key
started_spec r =
    if is_terminal_state r.state
    then err "terminal AgentRun event requires owner receipt"
    else ok (
        spec "agent_run.started" (
          ("receipt_key", text (receipt_key "agent_run.started:" r.agent_run_id))
          ∷ ("agent_run_id", text r.agent_run_id)
          ∷ ("phase", text (phase_value r.phase))
          ∷ ("session_kind", text (session_kind_value r.session_kind))
          ∷ slice_entries r.slice_ref))

unfoldable pub terminal_spec : AgentRun → AgentRunReceipt → Result String EventSpec
unfolding receipt_key
terminal_spec r receipt =
    if not (is_terminal_state r.state) || not (receipt.agent_run_id == r.agent_run_id)
    then err "terminal event requires matching AgentRun receipt"
    else ok (
        spec "agent_run.terminal" (
          ("receipt_key", text (receipt_key "agent_run.terminal:" r.agent_run_id))
          ∷ ("agent_run_id", text r.agent_run_id)
          ∷ ("phase", text (phase_value r.phase))
          ∷ ("session_kind", text (session_kind_value r.session_kind))
          ∷ ("exit", exit_entry r.exit)
          ∷ ("receipt_category", text receipt.category)
          ∷ slice_entries r.slice_ref))
