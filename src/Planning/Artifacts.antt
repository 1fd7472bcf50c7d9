-- ===== src/Planning/Artifacts.antt =====
-- planning/validator.py: `_validate_artifacts`, the assignment of the analyzed artifacts to tasks.
use code_migrator.Base.{
  nat_eq, list_eq, ℕ, suc, Bool, not, none, some, List, [], ◌∷◌, ◌++◌, ◌==◌, keep, length, nat_beq,
}
use code_migrator.Base.Loops.{collect}
use code_migrator.Planning.Proposal.{
  artifact_kind_beq, ArtifactTask, ArtifactFact, plan_coverage_invalid, PlanSliceProposal,
  PlanProposal, PlanningInputs, name, index, text, count, PlanViolation, violation, report,
}

-- A task with the indices of its slice and of itself.
pub record Placed : Type 0 where
  pub slice_index : ℕ
  pub task_index : ℕ
  pub task : ArtifactTask

unfoldable pub task_matches_fact : ArtifactTask → ArtifactFact → Bool
task_matches_fact task fact = elim task.artifact_path [
  | some p ↦ p == fact.path
  | none ↦ elim fact.source_path [
    | none ↦ task.source_path == fact.path
    | some [] ↦ task.source_path == fact.path
    | some (c ∷ p) ↦ task.source_path == c ∷ p
  ]
]

unfoldable pub placed_tasks : PlanProposal → List Placed
placed_tasks proposal = slices 0 proposal.slices
  where
    tasks : ℕ → ℕ → List ArtifactTask → List Placed
    tasks i j [] = []
    tasks i j (t ∷ ts) = record { slice_index = i; task_index = j; task = t } ∷ tasks i (suc j) ts

    slices : ℕ → List PlanSliceProposal → List Placed
    slices i [] = []
    slices i (s ∷ rest) = tasks i 0 s.artifact_tasks ++ slices (suc i) rest

-- What a fact is reported for, from the tasks that match it.
unfoldable pub check_matches : ArtifactFact → List Placed → List PlanViolation
check_matches fact (item ∷ []) =
    report (not (artifact_kind_beq item.task.kind fact.artifact_kind)) (
      violation plan_coverage_invalid
        (name "slices"
          ∷ index item.slice_index
          ∷ name "artifact_tasks"
          ∷ index item.task_index
          ∷ [])
        "artifact task kind does not match the analyzed artifact"
        (("artifact_path", text fact.path) ∷ []))
check_matches fact items =
    violation plan_coverage_invalid (name "slices" ∷ [])
      "each analyzed artifact must be assigned to exactly one artifact task"
      (("artifact_path", text fact.path) ∷ ("task_count", count (length items)) ∷ [])
    ∷ []

unfoldable pub check_task : List ArtifactFact → Placed → List PlanViolation
unfolding task_matches_fact
check_task facts item =
    report (not (nat_beq (length (keep (task_matches_fact item.task) facts)) 1)) (
      violation plan_coverage_invalid
        (name "slices"
          ∷ index item.slice_index
          ∷ name "artifact_tasks"
          ∷ index item.task_index
          ∷ [])
        "artifact task does not identify exactly one analyzed artifact"
        (("task_source_path", text item.task.source_path) ∷ []))

unfoldable pub validate_artifacts : PlanProposal → PlanningInputs → List PlanViolation
unfolding task_matches_fact placed_tasks check_matches check_task
validate_artifacts proposal inputs =
    let facts = inputs.analysis.artifacts in
    let tasks = placed_tasks proposal in
    collect (λ i fact. check_matches fact (keep (λ item. task_matches_fact item.task fact) tasks)) 0
      facts
    ++ collect (λ i item. check_task facts item) 0 tasks
