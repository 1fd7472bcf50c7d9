-- ===== src/Planning/Coverage.antt =====
-- planning/validator.py: `_validate_slice_modules`, `_in_scope_source_files` and the coverage of
-- the source files by the slices.
use code_migrator.Base.{
  nat_eq, list_eq, ℕ, String, Bool, true, false, not, ◌&&◌, ◌||◌, Option, none, some, List, [], ◌∷◌,
  ◌++◌, ◌==◌, if◌then◌else◌, any, keep, map, Text, contains, get, put, get_or, code_points,
}
use code_migrator.Base.Loops.{collect, unique, sorted}
use code_migrator.Planning.Proposal.{
  SliceKind, contract, implementation, test_translation, test_generation, slice_kind_beq,
  ModuleRole, source, test, role_beq, role_value, ModuleCoverage, empty_test_suite, coverage_value,
  plan_coverage_invalid, PlanSliceProposal, PlanProposal, name, index, Segment, text, texts, word,
  PlanViolation, ModuleFact, ModuleCoverageStatus, PlanningInputs, violation, report,
}
use code_migrator.Planning.Paths.{scope_includes_path}

-- `{module.module_id: module for module in modules}`, read at an id: the last module with it.
unfoldable pub module_at : List ModuleFact → Text → Option ModuleFact
module_at [] m = none
module_at (fact ∷ rest) m = elim (module_at rest m) [
  | none ↦ if fact.module_id == m then some fact else none
  | some later ↦ some later
]

unfoldable pub status_at : List ModuleCoverageStatus → Text → Option ModuleCoverage
status_at [] m = none
status_at (entry ∷ rest) m = elim (status_at rest m) [
  | none ↦ if entry.module_id == m then some entry.status else none
  | some later ↦ some later
]

abbrev pub expected_role : SliceKind → Option ModuleRole
expected_role contract = none
expected_role implementation = some source
expected_role test_translation = some test
expected_role test_generation = some source

abbrev pub check_role : List Segment → SliceKind → ModuleFact → List PlanViolation
check_role pointer kind fact = elim (expected_role kind) [
  | none ↦ []
  | some role ↦ report (not (role_beq fact.role role)) (
      violation plan_coverage_invalid pointer
        "slice source module role does not match its Slice kind"
        (("expected_role", word (role_value role))
          ∷ ("actual_role", word (role_value fact.role))
          ∷ []))
]

unfoldable pub out_of_scope : PlanningInputs → ModuleFact → List Text
unfolding scope_includes_path
out_of_scope inputs fact = keep (λ p. not (scope_includes_path inputs.scope p)) fact.file_paths

abbrev pub is_empty_suite : Option ModuleCoverage → Bool
is_empty_suite (some empty_test_suite) = true
is_empty_suite _ = false

abbrev pub status_value : Option ModuleCoverage → String
status_value none = "MISSING"
status_value (some status) = coverage_value status

unfoldable pub check_module : PlanningInputs → ℕ → SliceKind → ℕ → Text → List PlanViolation
unfolding module_at status_at out_of_scope
check_module inputs i kind j module_id =
    let pointer : List Segment = name "slices" ∷ index i ∷ name "source_modules" ∷ index j ∷ [] in
    let status = status_at inputs.analysis.coverage_status module_id in
    elim (module_at inputs.analysis.modules module_id) [
      | none ↦
          violation plan_coverage_invalid pointer "source module is not present in analysis facts"
            (("module_id", text module_id) ∷ [])
          ∷ []
      | some fact ↦
          check_role pointer kind fact
          ++ report (not (out_of_scope inputs fact == [])) (
              violation plan_coverage_invalid pointer
                "slice source module contains files outside the migration scope"
                (("paths", texts (out_of_scope inputs fact)) ∷ []))
          ++ report (slice_kind_beq kind test_generation && not (is_empty_suite status)) (
              violation plan_coverage_invalid pointer
                "TestGeneration requires an EmptyTestSuite source module"
                (("status", word (status_value status)) ∷ []))
    ]

unfoldable pub validate_slice_modules : PlanProposal → PlanningInputs → List PlanViolation
unfolding check_module
validate_slice_modules proposal inputs =
    collect (λ i s. collect (check_module inputs i s.kind) 0 s.source_modules) 0 proposal.slices

-- A file that a slice has to cover: in scope, and no artifact.
unfoldable pub is_expected : PlanningInputs → Text → Bool
unfolding scope_includes_path
is_expected inputs p =
    scope_includes_path inputs.scope p
    && not (any (λ artifact. artifact.path == p) inputs.analysis.artifacts)

-- The keys of `_in_scope_source_files`, which alone are used: the files of all modules, since a
-- module's role is one of the two.
unfoldable pub in_scope_source_files : PlanningInputs → List Text
unfolding is_expected
in_scope_source_files inputs = files inputs.analysis.modules
  where
    files : List ModuleFact → List Text
    files [] = []
    files (fact ∷ rest) = keep (is_expected inputs) fact.file_paths ++ files rest

abbrev pub Owners : Type 0
Owners = List (Text × List Text)

abbrev pub owners_of : Owners → Text → List Text
owners_of coverage p = get_or [] (get p coverage)

-- The files of a module, each with one owner more where it is expected.
unfoldable pub cover_files : List Text → Text → List Text → Owners → Owners
cover_files expected r [] coverage = coverage
cover_files expected r (p ∷ ps) coverage =
    cover_files expected r ps
      (if contains p expected then put p (owners_of coverage p ++ r ∷ []) coverage else coverage)

unfoldable pub cover_modules : List Text → List ModuleFact → Text → List Text → Owners → Owners
unfolding module_at cover_files
cover_modules expected modules r [] coverage = coverage
cover_modules expected modules r (m ∷ ms) coverage =
    cover_modules expected modules r ms (elim (module_at modules m) [
      | none ↦ coverage
      | some fact ↦ cover_files expected r fact.file_paths coverage
    ])

-- The kinds whose slices cover their modules' files.
abbrev pub covers : SliceKind → Bool
covers kind = slice_kind_beq kind implementation || slice_kind_beq kind test_translation

unfoldable pub cover_slices : List Text → List ModuleFact → List PlanSliceProposal → Owners → Owners
unfolding cover_modules
cover_slices expected modules [] coverage = coverage
cover_slices expected modules (s ∷ rest) coverage = cover_slices expected modules rest (
    if covers s.kind
    then cover_modules expected modules s.local_ref s.source_modules coverage
    else coverage)

unfoldable pub actual_coverage : PlanProposal → PlanningInputs → Owners
unfolding cover_slices in_scope_source_files
actual_coverage proposal inputs =
    cover_slices (in_scope_source_files inputs) inputs.analysis.modules proposal.slices []

-- `"|".join(names)`
abbrev pub join_bar : List Text → Text
join_bar [] = []
join_bar (t ∷ []) = t
join_bar (t ∷ ts) = t ++ b'|' ∷ join_bar ts

-- What a file is reported for, and its entry of the coverage.
abbrev pub coverage_entry : List Text → Text
coverage_entry [] = code_points "MISSING"
coverage_entry (r ∷ []) = r
coverage_entry owners = join_bar (sorted (unique owners))

unfoldable pub check_owners : Text → List Text → List PlanViolation
check_owners p [] =
    violation plan_coverage_invalid (name "slices" ∷ [])
      "in-scope source file is not covered by a slice" (("path", text p) ∷ [])
    ∷ []
check_owners p (r ∷ []) = []
check_owners p (r ∷ r' ∷ rest) =
    violation plan_coverage_invalid (name "slices" ∷ [])
      "in-scope source file is covered more than once"
      (("path", text p) ∷ ("owners", texts (sorted (unique (r ∷ r' ∷ rest)))) ∷ [])
    ∷ []

unfoldable pub validate_coverage : PlanProposal → PlanningInputs → List PlanViolation
unfolding actual_coverage check_owners in_scope_source_files
validate_coverage proposal inputs =
    collect (λ i p. check_owners p (owners_of (actual_coverage proposal inputs) p)) 0
      (sorted (unique (in_scope_source_files inputs)))

unfoldable pub source_coverage_of : PlanProposal → PlanningInputs → List (Text × Text)
unfolding actual_coverage in_scope_source_files
source_coverage_of proposal inputs =
    map (λ p. (p, coverage_entry (owners_of (actual_coverage proposal inputs) p)))
      (sorted (unique (in_scope_source_files inputs)))
