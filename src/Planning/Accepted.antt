-- ===== src/Planning/Accepted.antt =====
-- planning/validator.py: an accepted plan has passed each check.
use code_migrator.Base.{String, ◌≡◌, refl, Bool, true, false, Option, List, [], ◌∷◌, arith, Text}
use code_migrator.Base.Loops.{append-empty}
use code_migrator.Planning.Proposal.{
  PlanProposal, PlanViolation, PlanningLimits, PlanningInputs, report,
}
use code_migrator.Planning.Edges.{validate_edges, validate_test_edges, validate_ranks}
use code_migrator.Planning.Graph.{has_cycle}
use code_migrator.Planning.Scopes.{
  validate_scope_conflicts, validate_artifact_scopes, validate_blueprint,
}
use code_migrator.Planning.Coverage.{validate_slice_modules, validate_coverage}
use code_migrator.Planning.Artifacts.{validate_artifacts}
use code_migrator.Planning.Validator.{validate_limits, limits_of, is_empty, violations_of, validate}

pub report-empty : (b : Bool) (v : PlanViolation) → report b v ≡ [] → b ≡ false
report-empty true v h = absurd (ground arith)
report-empty false v h = refl

is_empty-holds {ℓ} : {A : Type ℓ} (xs : List A) → is_empty xs ≡ true → xs ≡ []
is_empty-holds [] h = refl
is_empty-holds (x ∷ xs) h = absurd (ground arith)

module _ (re_search : String → Text → Option Text) (own : Option PlanningLimits)
    (proposal : PlanProposal) (inputs : PlanningInputs) where
  pub record IsClean : Type 0 where
    pub slice_modules : validate_slice_modules proposal inputs ≡ []
    pub edges : validate_edges proposal ≡ []
    pub artifacts : validate_artifacts proposal inputs ≡ []
    pub artifact_scopes : validate_artifact_scopes proposal ≡ []
    pub test_edges : validate_test_edges proposal inputs.analysis ≡ []
    pub scope_conflicts : validate_scope_conflicts proposal ≡ []
    pub blueprint : validate_blueprint re_search proposal inputs.target_project_blueprint ≡ []
    pub coverage : validate_coverage proposal inputs ≡ []
    pub cycle : has_cycle proposal ≡ false
    pub ranks : validate_ranks proposal ≡ []
    pub limits : validate_limits proposal (limits_of own inputs) ≡ []

  pub accepted-IsClean : (validate re_search own proposal inputs).accepted ≡ true → IsClean
  unfolding validate violations_of
  accepted-IsClean h =
      let clean : violations_of re_search own proposal inputs ≡ [] = is_empty-holds _ h in
      let (rest, l) = append-empty _ _ clean in
      let (rest, k) = append-empty _ _ rest in
      let (rest, j) = append-empty _ _ rest in
      let (rest, i) = append-empty _ _ rest in
      let (rest, g) = append-empty _ _ rest in
      let (rest, f) = append-empty _ _ rest in
      let (rest, e) = append-empty _ _ rest in
      let (rest, d) = append-empty _ _ rest in
      let (rest, c) = append-empty _ _ rest in
      let (a, b) = append-empty _ _ rest in
      record {
        slice_modules = a;
        edges = b;
        artifacts = c;
        artifact_scopes = d;
        test_edges = e;
        scope_conflicts = f;
        blueprint = g;
        coverage = i;
        cycle = report-empty (has_cycle proposal) _ j;
        ranks = k;
        limits = l;
      }
