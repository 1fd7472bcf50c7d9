-- ===== src/Planning/Validator.antt =====
-- planning/validator.py: `_validate_limits`, and `validate`, which composes the checks.
use code_migrator.Base.{
  nat_eq, list_eq, ℕ, ◌+◌, ◌-◌, ◌*◌, ◌/◌, String, Bool, true, false, Option, none, some, List, [],
  ◌∷◌, ◌++◌, any, length, Text, ltb,
}
use code_migrator.Base.Loops.{collect}
use code_migrator.Planning.Proposal.{
  plan_cycle, plan_blueprint_violation, plan_size_exceeded, PlanSliceProposal, PlanProposal, name,
  index, PlanViolation, PlanValidation, PlanningLimits, PlanningInputs, violation, report,
}
use code_migrator.Planning.Edges.{validate_edges, validate_test_edges, validate_ranks}
use code_migrator.Planning.Graph.{has_cycle}
use code_migrator.Planning.Scopes.{
  validate_scope_conflicts, validate_artifact_scopes, validate_blueprint,
}
use code_migrator.Planning.Coverage.{validate_slice_modules, validate_coverage, source_coverage_of}
use code_migrator.Planning.Artifacts.{validate_artifacts}

unfoldable pub total_write_paths : List PlanSliceProposal → ℕ
total_write_paths [] = 0
total_write_paths (s ∷ rest) = length s.write_paths + total_write_paths rest

unfoldable pub validate_limits : PlanProposal → PlanningLimits → List PlanViolation
unfolding total_write_paths
validate_limits proposal limits =
    report (ltb limits.max_slices (length proposal.slices))
      (violation plan_size_exceeded (name "slices" ∷ []) "slice limit exceeded" [])
    ++ report (ltb limits.max_edges (length proposal.edges))
        (violation plan_size_exceeded (name "edges" ∷ []) "edge limit exceeded" [])
    ++ collect
        (λ i s. report (ltb limits.max_write_paths_per_slice (length s.write_paths)) (
          violation plan_size_exceeded (name "slices" ∷ index i ∷ name "write_paths" ∷ [])
            "single-slice write path limit exceeded" []))
        0 proposal.slices
    ++ report (ltb limits.max_total_write_paths (total_write_paths proposal.slices))
        (violation plan_size_exceeded (name "slices" ∷ []) "total write scope limit exceeded" [])

abbrev pub is_empty {ℓ} : {A : Type ℓ} → List A → Bool
is_empty [] = true
is_empty (x ∷ xs) = false

abbrev pub check_word : Bool → String
check_word true = "FAIL"
check_word false = "PASS"

abbrev pub is_blueprint : PlanViolation → Bool
is_blueprint v = elim v.code [ plan_blueprint_violation ↦ true | _ ↦ false ]

abbrev pub is_size : PlanViolation → Bool
is_size v = elim v.code [ plan_size_exceeded ↦ true | _ ↦ false ]

-- The validator's own limits, where it has them, stand in for the inputs' limits.
abbrev pub limits_of : Option PlanningLimits → PlanningInputs → PlanningLimits
limits_of none inputs = inputs.limits
limits_of (some limits) inputs = limits

module _ (re_search : String → Text → Option Text) (own : Option PlanningLimits) where
  unfoldable pub violations_of : PlanProposal → PlanningInputs → List PlanViolation
  violations_of proposal inputs =
      validate_slice_modules proposal inputs
      ++ validate_edges proposal
      ++ validate_artifacts proposal inputs
      ++ validate_artifact_scopes proposal
      ++ validate_test_edges proposal inputs.analysis
      ++ validate_scope_conflicts proposal
      ++ validate_blueprint re_search proposal inputs.target_project_blueprint
      ++ validate_coverage proposal inputs
      ++ report (has_cycle proposal)
          (violation plan_cycle (name "edges" ∷ []) "proposal edges contain a directed cycle" [])
      ++ validate_ranks proposal
      ++ validate_limits proposal (limits_of own inputs)

  unfoldable pub validate : PlanProposal → PlanningInputs → PlanValidation
  validate proposal inputs =
      let violations = violations_of proposal inputs in
      record {
        accepted = is_empty violations;
        violations = violations;
        source_coverage = source_coverage_of proposal inputs;
        checked_scope_pairs = length proposal.slices * (length proposal.slices - 1) / 2;
        cycle_check = check_word (has_cycle proposal);
        blueprint_check = check_word (any is_blueprint violations);
        rank_check = elim (validate_ranks proposal) [ [] ↦ "PASS" | v ∷ rest ↦ "FAIL" ];
        size_check = check_word (any is_size violations);
      }
