-- ===== src/Scheduler/Examples.antt =====
-- Runs of the scheduler, and its theorems at concrete inputs.
use code_migrator.Base.{
  here, there, string_eq, nat_eq, list_eq, String, ◌≡◌, refl, true, false, none, some, List, [],
  ◌∷◌, arith, Text, code_points, get, put, contains, add, subset, starts_with, rstrip, In, map, ok,
}
use code_migrator.Scheduler.Slices.{
  pool_eq, model, ReadySlice, identity_eq, FairScheduler, new, scopes_overlap, ready_slice,
}
use code_migrator.Scheduler.Methods.{find_slice, submit}
use code_migrator.Scheduler.Next.{
  next, search_from, offer_at, offer, is_ready, is_held, reserved_scopes, Op, op_submit, op_next,
  step, run,
}
use code_migrator.Scheduler.Selection.{IsDispatch, next-IsDispatch, next-none}
use code_migrator.Scheduler.Exclusion.{IsSafe, run-IsSafe}
use code_migrator.Scheduler.Fairness.{Round, round_served, bounded_waiting}

abbrev slice : String → String → List Text → List String → ReadySlice
slice run_id slice_id scope requires = record {
  run_id = run_id;
  slice_id = slice_id;
  dependencies = requires;
  write_scope = scope;
  resource_pool = model;
  generation = 0;
  ordered_before_dependencies = [];
  requires_dependencies = requires;
}

abbrev inner : ReadySlice
inner = slice "r1" "s2" (code_points "src/a" ∷ []) []

abbrev outer : ReadySlice
outer = slice "r1" "s1" (code_points "src/" ∷ []) []

abbrev other : ReadySlice
other = slice "r2" "s1" (code_points "src" ∷ []) []

-- Two runs; two slices of the first one overlap.
abbrev submissions : List Op
submissions = op_submit outer ∷ op_submit inner ∷ op_submit other ∷ []

abbrev both : List Op
both =
    op_submit outer
    ∷ op_submit inner
    ∷ op_next [] (model ∷ []) none
    ∷ op_next [] (model ∷ []) none
    ∷ []

run-IsSafe_example : IsSafe (run new both)
run-IsSafe_example = run-IsSafe both

outer_overlaps_inner : scopes_overlap outer.write_scope inner.write_scope ≡ true
unfolding scopes_overlap starts_with rstrip
outer_overlaps_inner = refl

ordered_predecessor :
    ready_slice "r" "s" ("a" ∷ []) [] model 0 ("a" ∷ []) none
    ≡ ok (record (slice "r" "s" [] []) {
      dependencies = "a" ∷ [];
      ordered_before_dependencies = "a" ∷ [];
    })
unfolding ready_slice subset contains
ordered_predecessor = refl

first_served : (next (run new submissions) [] (model ∷ []) none).1 ≡ some outer
unfolding run step submit find_slice get put next search_from offer_at offer is_ready is_held
    reserved_scopes contains add subset scopes_overlap
first_served = refl

next-IsDispatch_example :
    IsDispatch
      (run new submissions)
      []
      (model ∷ [])
      none
      outer
      (next (run new submissions) [] (model ∷ []) none).0
next-IsDispatch_example =
    next-IsDispatch (run new submissions) [] (model ∷ []) none outer first_served

-- The second slice of the run waits: its scope lies inside the reserved one.
none_served : (next (run new both) [] (model ∷ []) none).1 ≡ none
unfolding run step submit find_slice get put next search_from offer_at offer is_ready is_held
    reserved_scopes contains add subset scopes_overlap starts_with rstrip
none_served = refl

next-none_example :
    ((next (run new both) [] (model ∷ []) none).0 ≡ run new both)
    × (is_ready (run new both) [] (model ∷ []) "r1" inner ≡ false)
unfolding run step submit find_slice get put next search_from offer_at offer is_ready is_held
    reserved_scopes contains add subset scopes_overlap starts_with rstrip
next-none_example =
    next-none (run new both) [] (model ∷ []) none "r1" 0 inner none_served refl refl (there here)

abbrev round : FairScheduler → Round
round s = record {
  state = s;
  call = record { active_scopes = []; pools = model ∷ []; only_run_id = none };
}

abbrev first_state : FairScheduler
first_state = run new submissions

abbrev second_state : FairScheduler
second_state = (next first_state [] (model ∷ []) none).0

bounded_waiting_example :
    In (some 1) (map round_served (round first_state ∷ round second_state ∷ []))
unfolding run step submit find_slice get put next search_from offer_at offer is_ready is_held
    reserved_scopes contains add subset scopes_overlap
bounded_waiting_example =
    bounded_waiting (round first_state) (round second_state ∷ []) 1 (omega arith) (omega arith)
      (refl, ([], refl), tt) ((λ e. cc), ((λ e. cc), tt))
