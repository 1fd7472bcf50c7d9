-- ===== src/Planning/Scopes.antt =====
-- planning/validator.py: `_scopes_overlap`, `_validate_scope_conflicts`,
-- `_validate_artifact_scopes` and `_validate_blueprint`.
use code_migrator.Base.{
  nat_eq, list_eq, string_eq, ℕ, suc, String, Bool, true, not, ◌&&◌, ◌||◌, Option, none, some, List,
  [], ◌∷◌, ◌++◌, ◌==◌, if◌then◌else◌, any, Text, slash, starts_with, rstrip, contains, get,
}
use code_migrator.Base.Loops.{collect, unique, sorted}
use code_migrator.Planning.Proposal.{
  contract, slice_kind_beq, resource_file, artifact_kind_beq, ArtifactTask, plan_scope_conflict,
  plan_blueprint_violation, PlanSliceProposal, PlanProposal, name, index, text, texts,
  PlanViolation, BoundaryValue, str, other, TargetProjectBlueprint, violation, report,
}

unfoldable pub path_is_in_root : Text → Text → Bool
path_is_in_root path root = path == root || starts_with path (root ++ slash ∷ [])

unfoldable pub scopes_overlap : List Text → List Text → List Text → List Text → Bool
unfolding path_is_in_root
scopes_overlap left_paths left_roots right_paths right_roots =
    if any (λ p. contains p right_paths) left_paths
    then true
    else if any (λ p. any (λ r. path_is_in_root p r) right_roots) left_paths
    then true
    else if any (λ p. any (λ r. path_is_in_root p r) left_roots) right_paths
    then true
    else any (λ l. any (λ r. path_is_in_root l r || path_is_in_root r l) right_roots) left_roots

abbrev pub slices_overlap : PlanSliceProposal → PlanSliceProposal → Bool
slices_overlap left right =
    scopes_overlap left.write_paths left.create_roots right.write_paths right.create_roots

-- A slice against the later ones.
unfoldable pub check_pairs : ℕ → PlanSliceProposal → List PlanSliceProposal → List PlanViolation
unfolding scopes_overlap
check_pairs i left rest =
    collect
      (λ j right. report (slices_overlap left right) (
        violation plan_scope_conflict (name "slices" ∷ index i ∷ name "write_paths" ∷ [])
          "slice write scopes must be pairwise disjoint" (("other", text right.local_ref) ∷ [])))
      (suc i) rest

unfoldable pub conflicts_from : ℕ → List PlanSliceProposal → List PlanViolation
unfolding check_pairs
conflicts_from i [] = []
conflicts_from i (left ∷ rest) = check_pairs i left rest ++ conflicts_from (suc i) rest

unfoldable pub validate_scope_conflicts : PlanProposal → List PlanViolation
unfolding conflicts_from
validate_scope_conflicts proposal = conflicts_from 0 proposal.slices

-- A slice that translates code: every kind but a contract.
abbrev pub is_translation : PlanSliceProposal → Bool
is_translation s = not (slice_kind_beq s.kind contract)

-- A resource whose target lies in the write scope of a translation slice.
unfoldable pub enters_translation : List PlanSliceProposal → ArtifactTask → Bool
unfolding scopes_overlap
enters_translation slices task =
    artifact_kind_beq task.kind resource_file
    && any
        (λ s.
          is_translation s
          && scopes_overlap (task.target_path ∷ []) [] s.write_paths s.create_roots)
        slices

unfoldable pub validate_artifact_scopes : PlanProposal → List PlanViolation
unfolding enters_translation
validate_artifact_scopes proposal =
    collect
      (λ i s.
        collect
          (λ j task. report (enters_translation proposal.slices task) (
            violation plan_scope_conflict
              (name "slices" ∷ index i ∷ name "artifact_tasks" ∷ index j ∷ [])
              "ResourceFile targets must not enter a translation slice write scope" []))
          0 s.artifact_tasks)
      0 proposal.slices

-- `value.rstrip("/")` of a boundary's value, where it is a string that is not empty.
abbrev pub prefix_of : Option BoundaryValue → List Text
prefix_of none = []
prefix_of (some other) = []
prefix_of (some (str [])) = []
prefix_of (some (str (c ∷ value))) = rstrip slash (c ∷ value) ∷ []

abbrev pub boundary_prefixes : List (String × BoundaryValue) → List String → List Text
boundary_prefixes boundary [] = []
boundary_prefixes boundary (key ∷ keys) =
    prefix_of (get key boundary) ++ boundary_prefixes boundary keys

abbrev pub prefix_keys : List String
prefix_keys = "target_path_prefix" ∷ "target_prefix" ∷ "path_prefix" ∷ "target_root" ∷ []

abbrev pub all_boundary_prefixes : List (List (String × BoundaryValue)) → List Text
all_boundary_prefixes [] = []
all_boundary_prefixes (boundary ∷ rest) =
    boundary_prefixes boundary prefix_keys ++ all_boundary_prefixes rest

abbrev pub layout_prefix : String
layout_prefix =
    "\\b(?:target\\s+)?layout\\s+(?:prefix|root)\\s*[:=]\\s*[`\\\"']?([A-Za-z0-9_.-]+(?:/[A-Za-z0-9_.-]+)*)"

abbrev pub paths_under : String
paths_under =
    "\\b(?:target\\s+)?(?:paths?|files?)\\s+under\\s+[`\\\"']?([A-Za-z0-9_.-]+(?:/[A-Za-z0-9_.-]+)*)"

-- `re.search(pattern, principle, flags=re.IGNORECASE)`, its first group where it matches.
module _ (search : String → Text → Option Text) where
  abbrev pub found_prefix : String → Text → List Text
  found_prefix pattern principle = elim (search pattern principle) [
    | none ↦ []
    | some group ↦ rstrip slash group ∷ []
  ]

  unfoldable pub layout_principle_prefixes : Text → List Text
  layout_principle_prefixes principle =
      found_prefix layout_prefix principle ++ found_prefix paths_under principle

  unfoldable pub all_layout_prefixes : List Text → List Text
  unfolding layout_principle_prefixes
  all_layout_prefixes [] = []
  all_layout_prefixes (principle ∷ rest) =
      layout_principle_prefixes principle ++ all_layout_prefixes rest

  unfoldable pub allowed_prefixes : TargetProjectBlueprint → List Text
  unfolding all_layout_prefixes
  allowed_prefixes blueprint =
      all_boundary_prefixes blueprint.module_boundaries
      ++ all_layout_prefixes blueprint.target_layout_principles

  unfoldable pub check_blueprint : List Text → ℕ → PlanSliceProposal → List PlanViolation
  unfolding path_is_in_root
  check_blueprint prefixes i s =
      collect
        (λ j path. report (not (any (λ prefix. path_is_in_root path prefix) prefixes)) (
          violation plan_blueprint_violation (name "slices" ∷ index i ∷ [])
            "target path is outside all Blueprint target prefixes"
            (("path", text path) ∷ ("allowed_prefixes", texts (sorted (unique prefixes))) ∷ [])))
        0 (s.write_paths ++ s.create_roots)

  unfoldable pub validate_blueprint : PlanProposal → TargetProjectBlueprint → List PlanViolation
  unfolding allowed_prefixes check_blueprint
  validate_blueprint proposal blueprint = elim (allowed_prefixes blueprint) [
    | [] ↦ []
    | prefix ∷ rest ↦ collect (check_blueprint (prefix ∷ rest)) 0 proposal.slices
  ]
