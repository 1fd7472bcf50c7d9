-- ===== src/Planning/Examples.antt =====
-- A plan of two slices, and the theorems about accepted plans at it.
use code_migrator.Base.{
  err, inr, some, any, ◌⊎◌, there, not, nat_beq, ◌+◌, nat_eq, list_eq, List, ℕ, zero, suc,
  string_eq, String, ◌≡◌, refl, true, false, Option, none, [], ◌∷◌, arith, Text, code_points,
  contains, add, subset, get, put, starts_with, rstrip, here, length, keep,
}
use code_migrator.Base.Loops.{unique, sorted}
use code_migrator.Planning.Proposal.{
  str, implementation, resource_file, requires, structural, source, pos, ArtifactTask,
  PlanSliceProposal, PlanEdgeProposal, PlanProposal, PlanViolation, PlanValidation, ModuleFact,
  ArtifactFact, PlanningInputs,
}
use code_migrator.Planning.Paths.{
  star_then, body_matches, is_directory, all_but_last, pattern_matches, scope_pattern_matches,
  scope_includes_path,
}
use code_migrator.Planning.Edges.{
  check_edge, check_edges, validate_edges, tested_by, slice_at, test_end, tested_modules_of,
  links_tested, validate_test_edges, check_rank, validate_ranks,
}
use code_migrator.Planning.Graph.{add_edge, add_edges, relax, visit, has_cycle}
use code_migrator.Planning.Scopes.{
  path_is_in_root, scopes_overlap, check_pairs, conflicts_from, validate_scope_conflicts,
  enters_translation, validate_artifact_scopes, layout_principle_prefixes, all_layout_prefixes,
  allowed_prefixes, check_blueprint, validate_blueprint,
}
use code_migrator.Planning.Coverage.{
  module_at, status_at, out_of_scope, check_module, validate_slice_modules, is_expected,
  in_scope_source_files, cover_files, cover_modules, cover_slices, actual_coverage, check_owners,
  validate_coverage,
}
use code_migrator.Planning.Artifacts.{
  Placed, task_matches_fact, placed_tasks, check_matches, check_task, validate_artifacts,
}
use code_migrator.Planning.Validator.{total_write_paths, validate_limits, violations_of, validate}
use code_migrator.Planning.Disjoint.{is_writable, scopes_overlap_sound, accepted-no_shared_path}
use code_migrator.Planning.Ranks.{Leads, accepted-acyclic}
use code_migrator.Planning.Covered.{coverers, accepted-covered_once}
use code_migrator.Planning.Targets.{Suits, accepted-inside_blueprint, accepted-Suits}
use code_migrator.Planning.Ripple.{
  ImportEdge, add_imports, add_relations, reverse_of, see, close, reverse_import_closure,
}
use code_migrator.Planning.Dependents.{reverse_import_closure-holds, reverse_import_closure-least}
use code_migrator.Planning.Patterns.{
  validate_scope_pattern, star_misplaced, has_two_stars, count_stars, split, last_part,
  excludes_are_contained, pattern_is_contained,
}
use code_migrator.Planning.Rounds.{refs_in, graph_of, start_of, has_cycle-rounds}
use code_migrator.Planning.Retry.{
  Answer, Checked, malformed, proposed, judged, IsEnd, run, run-IsEnd,
}
use code_migrator.Planning.Limits.{
  IsWithin, accepted-IsWithin, accepted-artifact_task, accepted-task_artifact,
}

abbrev settings : ArtifactTask
settings = record {
  kind = resource_file;
  source_path = code_points "src/app.ini";
  target_path = code_points "conf/app.ini";
  artifact_path = none;
}

abbrev parser : PlanSliceProposal
parser = record {
  local_ref = code_points "parser";
  kind = implementation;
  source_modules = code_points "m1" ∷ [];
  write_paths = code_points "out/parser.rs" ∷ [];
  create_roots = [];
  artifact_tasks = [];
}

abbrev server : PlanSliceProposal
server = record {
  local_ref = code_points "server";
  kind = implementation;
  source_modules = code_points "m2" ∷ [];
  write_paths = [];
  create_roots = code_points "out/server" ∷ [];
  artifact_tasks = settings ∷ [];
}

abbrev parser_first : PlanEdgeProposal
parser_first = record {
  from_ = code_points "parser";
  to = code_points "server";
  kind = requires;
  provenance = structural;
}

abbrev plan : PlanProposal
plan = record {
  slices = parser ∷ server ∷ [];
  edges = parser_first ∷ [];
  integration_ranks = (code_points "parser", pos 0) ∷ (code_points "server", pos 1) ∷ [];
}

abbrev source_module : Text → Text → ModuleFact
source_module id path = record { module_id = id; file_paths = path ∷ []; role = source }

abbrev settings_fact : ArtifactFact
settings_fact = record {
  path = code_points "src/app.ini";
  artifact_kind = resource_file;
  source_path = none;
}

abbrev facts : PlanningInputs
facts = record {
  scope = record { include = code_points "src/" ∷ []; exclude = [] };
  target_project_blueprint = record {
    module_boundaries = (("target_path_prefix", str (code_points "out/")) ∷ []) ∷ [];
    target_layout_principles = [];
  };
  analysis = record {
    modules =
        source_module (code_points "m1") (code_points "src/parser.py")
        ∷ source_module (code_points "m2") (code_points "src/server.py")
        ∷ [];
    coverage = [];
    coverage_status = [];
    artifacts = settings_fact ∷ [];
  };
  limits = record {
    max_slices = 100;
    max_edges = 500;
    max_write_paths_per_slice = 200;
    max_total_write_paths = 2000;
  };
}

abbrev no_prefix : String → Text → Option Text
no_prefix pattern principle = none

plan-accepted : (validate no_prefix none plan facts).accepted ≡ true
unfolding validate violations_of validate_slice_modules check_module module_at status_at
    out_of_scope scope_includes_path scope_pattern_matches pattern_matches is_directory all_but_last
    body_matches star_then starts_with validate_edges check_edges check_edge contains
    validate_artifacts task_matches_fact placed_tasks check_matches check_task
    validate_artifact_scopes enters_translation scopes_overlap path_is_in_root validate_test_edges
    links_tested test_end slice_at tested_modules_of tested_by validate_scope_conflicts
    conflicts_from check_pairs validate_blueprint allowed_prefixes all_layout_prefixes
    layout_principle_prefixes check_blueprint rstrip validate_coverage in_scope_source_files
    is_expected actual_coverage cover_slices cover_modules cover_files check_owners get put add
    subset unique sorted has_cycle add_edges add_edge relax visit validate_ranks check_rank
    validate_limits total_write_paths
plan-accepted = refl

abbrev new_file : Text
new_file = code_points "out/server/main.rs"

scopes_overlap_sound_example :
    is_writable [] (code_points "out/server" ∷ []) (code_points "out/parser.rs") ≡ false
unfolding scopes_overlap path_is_in_root is_writable contains starts_with
scopes_overlap_sound_example =
    scopes_overlap_sound (code_points "out/parser.rs" ∷ []) [] [] (code_points "out/server" ∷ [])
      (code_points "out/parser.rs") refl refl

accepted-no_shared_path_example :
    is_writable [] (code_points "out/server" ∷ []) (code_points "out/parser.rs") ≡ false
unfolding is_writable contains
accepted-no_shared_path_example =
    accepted-no_shared_path no_prefix none plan facts 0 1 parser server
      (code_points "out/parser.rs") plan-accepted refl refl (omega arith) refl

accepted-acyclic_example : ¬ Leads plan.edges (code_points "server") (code_points "server")
accepted-acyclic_example =
    accepted-acyclic no_prefix none plan facts (code_points "server") plan-accepted

accepted-covered_once_example :
    (r : Text) × (coverers (code_points "src/parser.py") facts.analysis.modules plan.slices
      ≡ r ∷ [])
unfolding in_scope_source_files is_expected scope_includes_path scope_pattern_matches
    pattern_matches is_directory all_but_last body_matches star_then starts_with
accepted-covered_once_example =
    accepted-covered_once no_prefix none plan facts (code_points "src/parser.py") plan-accepted here

accepted-IsWithin_example : IsWithin plan facts.limits
accepted-IsWithin_example = accepted-IsWithin no_prefix none plan facts plan-accepted

accepted-artifact_task_example :
    (item : Placed) × (keep (λ i. task_matches_fact i.task settings_fact) (placed_tasks plan)
      ≡ item ∷ [])
    × (item.task.kind ≡ resource_file)
accepted-artifact_task_example =
    accepted-artifact_task no_prefix none plan facts settings_fact plan-accepted here

abbrev placed : Placed
placed = record { slice_index = 1; task_index = 0; task = settings }

accepted-task_artifact_example : length (keep (task_matches_fact settings) (settings_fact ∷ [])) ≡ 1
unfolding placed_tasks
accepted-task_artifact_example =
    accepted-task_artifact no_prefix none plan facts placed plan-accepted here

-- A planner that answers with no proposal first, and then with the plan.
abbrev second_time : ℕ → List PlanViolation → Answer
second_time zero feedback = malformed "no slices"
second_time (suc k) feedback = proposed plan

abbrev by_validator : PlanProposal → Checked
by_validator p = judged (validate no_prefix none p facts)

abbrev as_frozen : PlanProposal → PlanValidation → Option PlanProposal
as_frozen p v = some p

run-IsEnd_example :
    IsEnd second_time by_validator by_validator as_frozen 3
      (run second_time by_validator by_validator as_frozen 3)
run-IsEnd_example = run-IsEnd second_time by_validator by_validator as_frozen 3

has_cycle-rounds_example :
    has_cycle plan
    ≡ not (
        nat_beq
          (visit (graph_of plan).0 (length (refs_in plan) + 3) (start_of plan) (graph_of plan).1)
          (length (refs_in plan)))
has_cycle-rounds_example = has_cycle-rounds plan 3

accepted-inside_blueprint_example :
    (allowed_prefixes no_prefix facts.target_project_blueprint ≡ [])
    ⊎ (any
          (λ prefix. path_is_in_root (code_points "out/server") prefix)
          (allowed_prefixes no_prefix facts.target_project_blueprint)
        ≡ true)
accepted-inside_blueprint_example =
    accepted-inside_blueprint no_prefix none plan facts server (code_points "out/server")
      plan-accepted (there here) here

accepted-Suits_example :
    (fact : ModuleFact) × (module_at facts.analysis.modules (code_points "m1") ≡ some fact)
    × Suits facts implementation fact
accepted-Suits_example =
    accepted-Suits no_prefix none plan facts parser (code_points "m1") plan-accepted here here

abbrev app_imports : List ImportEdge
app_imports = record { from_module = code_points "m2"; target = some (code_points "m1") } ∷ []

reverse_import_closure-holds_example :
    contains (code_points "m2") (reverse_import_closure app_imports [] (code_points "m1" ∷ []))
    ≡ true
unfolding reverse_import_closure contains close see add reverse_of add_imports add_relations get put
reverse_import_closure-holds_example =
    reverse_import_closure-holds app_imports [] (code_points "m1" ∷ []) (code_points "m2")
      (inr (code_points "m1", refl, refl))

abbrev m1_m2 : List Text
m1_m2 = code_points "m1" ∷ code_points "m2" ∷ []

reverse_import_closure-least_example : contains (code_points "m2") m1_m2 ≡ true
unfolding reverse_import_closure contains close see add reverse_of add_imports add_relations get put
reverse_import_closure-least_example =
    reverse_import_closure-least app_imports [] (code_points "m1" ∷ []) m1_m2 (code_points "m2")
      (λ y h. ground arith) (λ m y h d. ground arith) refl

star_in_directory :
    validate_scope_pattern (code_points "src/*/a.py")
    ≡ err "scope star must occur once in the final file segment"
unfolding validate_scope_pattern star_misplaced has_two_stars count_stars split last_part
    is_directory all_but_last contains starts_with
star_in_directory = refl

exclude_below :
    excludes_are_contained (code_points "src/" ∷ []) (code_points "src/gen/*.py" ∷ []) ≡ true
unfolding excludes_are_contained pattern_is_contained is_directory starts_with
exclude_below = refl
