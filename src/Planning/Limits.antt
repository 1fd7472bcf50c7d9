-- ===== src/Planning/Limits.antt =====
-- planning/validator.py: the size of an accepted plan, and its artifact tasks.
use code_migrator.Base.{
  nat_eq, list_eq, ℕ, ◌≤◌, ◌≡◌, refl, String, true, not, Option, List, [], ◌∷◌, arith, Text, length,
  keep, ltb, nat_beq, In,
}
use code_migrator.Base.Loops.{append-empty, collect, collect-empty}
use code_migrator.Planning.Proposal.{
  ArtifactKind, artifact_kind_beq, ArtifactFact, PlanSliceProposal, PlanProposal, PlanViolation,
  PlanningLimits, PlanningInputs,
}
use code_migrator.Planning.Artifacts.{
  Placed, task_matches_fact, placed_tasks, check_matches, check_task, validate_artifacts,
}
use code_migrator.Planning.Validator.{total_write_paths, validate_limits, limits_of, validate}
use code_migrator.Planning.Accepted.{accepted-IsClean, report-empty}

pub record IsWithin (proposal : PlanProposal) (limits : PlanningLimits) : Type 0 where
  pub slices : length proposal.slices ≤ limits.max_slices
  pub edges : length proposal.edges ≤ limits.max_edges
  pub paths :
      (s : PlanSliceProposal)
      → In s proposal.slices
      → length s.write_paths ≤ limits.max_write_paths_per_slice
  pub total : total_write_paths proposal.slices ≤ limits.max_total_write_paths

limits-IsWithin :
    (proposal : PlanProposal) (limits : PlanningLimits)
    → validate_limits proposal limits ≡ []
    → IsWithin proposal limits
unfolding validate_limits
limits-IsWithin proposal limits h =
    let (front, d) = append-empty _ _ h in
    let (front, c) = append-empty _ _ front in
    let (a, b) = append-empty _ _ front in
    let a' = report-empty (ltb limits.max_slices (length proposal.slices)) _ a in
    let b' = report-empty (ltb limits.max_edges (length proposal.edges)) _ b in
    let d' =
      report-empty (ltb limits.max_total_write_paths (total_write_paths proposal.slices)) _ d in
    record {
      slices = ground arith;
      edges = ground arith;
      paths = λ s m.
          let (j, e) = collect-empty _ 0 m c in
          let e' = report-empty (ltb limits.max_write_paths_per_slice (length s.write_paths)) _ e in
          ground arith;
      total = ground arith;
    }

-- An accepted plan keeps to the limits: of the validator where it has its own, else of the inputs.
-- They bound the slices, the edges, each slice's write paths and all write paths together.
pub accepted-IsWithin :
    (re_search : String → Text → Option Text) (own : Option PlanningLimits)
    (proposal : PlanProposal) (inputs : PlanningInputs)
    → (validate re_search own proposal inputs).accepted ≡ true
    → IsWithin proposal (limits_of own inputs)
accepted-IsWithin re_search own proposal inputs h =
    limits-IsWithin proposal (limits_of own inputs)
      (accepted-IsClean re_search own proposal inputs h).limits

artifact_kind_beq_sound : (a b : ArtifactKind) → artifact_kind_beq a b ≡ true → a ≡ b
artifact_kind_beq_sound a b h = ground arith

one_match :
    (fact : ArtifactFact) (items : List Placed)
    → check_matches fact items ≡ []
    → (item : Placed) × (items ≡ item ∷ []) × (item.task.kind ≡ fact.artifact_kind)
unfolding check_matches
one_match fact [] h = absurd (ground arith)
one_match fact (item ∷ []) h =
    let e = report-empty (not (artifact_kind_beq item.task.kind fact.artifact_kind)) _ h in
    (item, refl, artifact_kind_beq_sound item.task.kind fact.artifact_kind (ground arith))
one_match fact (a ∷ b ∷ rest) h = absurd (ground arith)

-- The two loops of the check of the artifacts.
check_fact : PlanProposal → ℕ → ArtifactFact → List PlanViolation
check_fact proposal i fact =
    check_matches fact (keep (λ item. task_matches_fact item.task fact) (placed_tasks proposal))

artifacts-loops :
    (proposal : PlanProposal) (inputs : PlanningInputs)
    → validate_artifacts proposal inputs ≡ []
    → (collect (check_fact proposal) 0 inputs.analysis.artifacts ≡ [])
      × (collect (λ i item. check_task inputs.analysis.artifacts item) 0 (placed_tasks proposal)
          ≡ [])
unfolding validate_artifacts check_fact
artifacts-loops proposal inputs h = append-empty _ _ h

-- In an accepted plan each analyzed artifact has exactly one task, and the task has its kind.
pub accepted-artifact_task :
    (re_search : String → Text → Option Text) (own : Option PlanningLimits)
    (proposal : PlanProposal) (inputs : PlanningInputs) (fact : ArtifactFact)
    → (validate re_search own proposal inputs).accepted ≡ true
    → In fact inputs.analysis.artifacts
    → (item : Placed) × (keep (λ i. task_matches_fact i.task fact) (placed_tasks proposal)
        ≡ item ∷ [])
      × (item.task.kind ≡ fact.artifact_kind)
unfolding check_fact
accepted-artifact_task re_search own proposal inputs fact h m =
    let clean = accepted-IsClean re_search own proposal inputs h in
    let (facts, tasks) = artifacts-loops proposal inputs clean.artifacts in
    let (j, e) = collect-empty (check_fact proposal) 0 m facts in one_match fact _ e

-- In an accepted plan each artifact task of a slice identifies exactly one analyzed artifact.
pub accepted-task_artifact :
    (re_search : String → Text → Option Text) (own : Option PlanningLimits)
    (proposal : PlanProposal) (inputs : PlanningInputs) (item : Placed)
    → (validate re_search own proposal inputs).accepted ≡ true
    → In item (placed_tasks proposal)
    → length (keep (task_matches_fact item.task) inputs.analysis.artifacts) ≡ 1
unfolding check_task
accepted-task_artifact re_search own proposal inputs item h m =
    let clean = accepted-IsClean re_search own proposal inputs h in
    let (facts, tasks) = artifacts-loops proposal inputs clean.artifacts in
    let (j, e) = collect-empty (λ i x. check_task inputs.analysis.artifacts x) 0 m tasks in
    let n = length (keep (task_matches_fact item.task) inputs.analysis.artifacts) in
    let e' = report-empty (not (nat_beq n 1)) _ e in ground arith
