-- ===== src/Planning/Proposal.antt =====
-- core/models/plan.py, planning/models.py, analysis/models.py and core/enums.py: the plan that a
-- planner proposes, the facts it is checked against, and what the check reports. Fields that the
-- check does not read are left out. References, module ids and paths are texts.
use code_migrator.Base.{ℕ, String, Bool, true, false, Option, List, [], ◌∷◌, Text}

pub data SliceKind : Type 0 where
  contract : SliceKind
  implementation : SliceKind
  test_translation : SliceKind
  test_generation : SliceKind

pub data ArtifactKind : Type 0 where
  generated_code : ArtifactKind
  declarative_config : ArtifactKind
  resource_file : ArtifactKind

pub data PlanEdgeKind : Type 0 where
  requires : PlanEdgeKind
  ordered_before : PlanEdgeKind

pub data EdgeProvenance : Type 0 where
  structural : EdgeProvenance
  import_static : EdgeProvenance
  import_unknown : EdgeProvenance
  coverage : EdgeProvenance
  write_scope_conflict : EdgeProvenance

pub data ModuleRole : Type 0 where
  source : ModuleRole
  test : ModuleRole

pub data ModuleCoverage : Type 0 where
  covered : ModuleCoverage
  empty_test_suite : ModuleCoverage
  undetermined : ModuleCoverage

-- The stable codes of planning.
pub data StableErrorCode : Type 0 where
  plan_cycle : StableErrorCode
  plan_scope_conflict : StableErrorCode
  plan_blueprint_violation : StableErrorCode
  plan_coverage_invalid : StableErrorCode
  plan_size_exceeded : StableErrorCode
  plan_edge_invalid : StableErrorCode
  plan_rank_inconsistent : StableErrorCode
  plan_proposal_invalid : StableErrorCode

-- An integer: `negsuc n` is -(n + 1).
pub data ℤ : Type 0 where
  pos : ℕ → ℤ
  negsuc : ℕ → ℤ

pub record ArtifactTask : Type 0 where
  pub kind : ArtifactKind
  pub source_path : Text
  pub target_path : Text
  pub artifact_path : Option Text

pub record PlanSliceProposal : Type 0 where
  pub local_ref : Text
  pub kind : SliceKind
  pub source_modules : List Text
  pub write_paths : List Text
  pub create_roots : List Text
  pub artifact_tasks : List ArtifactTask

pub record PlanEdgeProposal : Type 0 where
  pub from_ : Text
  pub to : Text
  pub kind : PlanEdgeKind
  pub provenance : EdgeProvenance

pub record PlanProposal : Type 0 where
  pub slices : List PlanSliceProposal
  pub edges : List PlanEdgeProposal
  pub integration_ranks : List (Text × ℤ)

-- A segment of a JSON pointer.
pub data Segment : Type 0 where
  name : String → Segment
  index : ℕ → Segment
  ref : Text → Segment

-- A value of a violation's details.
pub data Detail : Type 0 where
  text : Text → Detail
  texts : List Text → Detail
  word : String → Detail
  count : ℕ → Detail
  rank : ℤ → Detail

pub record PlanViolation : Type 0 where
  pub code : StableErrorCode
  pub pointer : List Segment
  pub message : String
  pub details : List (String × Detail)

pub record PlanValidation : Type 0 where
  pub accepted : Bool
  pub violations : List PlanViolation
  pub source_coverage : List (Text × Text)
  pub checked_scope_pairs : ℕ
  pub cycle_check : String
  pub blueprint_check : String
  pub rank_check : String
  pub size_check : String

pub record ModuleFact : Type 0 where
  pub module_id : Text
  pub file_paths : List Text
  pub role : ModuleRole

pub record CoverageEntry : Type 0 where
  pub test_file : Text
  pub tested_modules : List Text

pub record ModuleCoverageStatus : Type 0 where
  pub module_id : Text
  pub status : ModuleCoverage

pub record ArtifactFact : Type 0 where
  pub path : Text
  pub artifact_kind : ArtifactKind
  pub source_path : Option Text

pub record AnalysisResult : Type 0 where
  pub modules : List ModuleFact
  pub coverage : List CoverageEntry
  pub coverage_status : List ModuleCoverageStatus
  pub artifacts : List ArtifactFact

pub record SpecScope : Type 0 where
  pub include : List Text
  pub exclude : List Text

-- A value of a module boundary's dictionary: a string, or something else.
pub data BoundaryValue : Type 0 where
  str : Text → BoundaryValue
  other : BoundaryValue

pub record TargetProjectBlueprint : Type 0 where
  pub module_boundaries : List (List (String × BoundaryValue))
  pub target_layout_principles : List Text

pub record PlanningLimits : Type 0 where
  pub max_slices : ℕ
  pub max_edges : ℕ
  pub max_write_paths_per_slice : ℕ
  pub max_total_write_paths : ℕ

pub record PlanningInputs : Type 0 where
  pub scope : SpecScope
  pub target_project_blueprint : TargetProjectBlueprint
  pub analysis : AnalysisResult
  pub limits : PlanningLimits

abbrev pub slice_kind_beq : SliceKind → SliceKind → Bool
slice_kind_beq contract contract = true
slice_kind_beq implementation implementation = true
slice_kind_beq test_translation test_translation = true
slice_kind_beq test_generation test_generation = true
slice_kind_beq _ _ = false

abbrev pub artifact_kind_beq : ArtifactKind → ArtifactKind → Bool
artifact_kind_beq generated_code generated_code = true
artifact_kind_beq declarative_config declarative_config = true
artifact_kind_beq resource_file resource_file = true
artifact_kind_beq _ _ = false

abbrev pub role_beq : ModuleRole → ModuleRole → Bool
role_beq source source = true
role_beq test test = true
role_beq _ _ = false

abbrev pub role_value : ModuleRole → String
role_value source = "SOURCE"
role_value test = "TEST"

abbrev pub coverage_value : ModuleCoverage → String
coverage_value covered = "COVERED"
coverage_value empty_test_suite = "EMPTY_TEST_SUITE"
coverage_value undetermined = "UNDETERMINED"

abbrev pub edge_kind_beq : PlanEdgeKind → PlanEdgeKind → Bool
edge_kind_beq requires requires = true
edge_kind_beq ordered_before ordered_before = true
edge_kind_beq _ _ = false

-- The references of the slices: `{slice.local_ref for slice in proposal.slices}`.
abbrev pub refs_of : List PlanSliceProposal → List Text
refs_of [] = []
refs_of (s ∷ rest) = s.local_ref ∷ refs_of rest

abbrev pub violation :
    StableErrorCode → List Segment → String → List (String × Detail) → PlanViolation
violation code pointer message details = record {
  code = code;
  pointer = pointer;
  message = message;
  details = details;
}

-- A list with one violation, where a test holds.
abbrev pub report : Bool → PlanViolation → List PlanViolation
report true v = v ∷ []
report false v = []
