-- ===== src/Integration/Examples.antt =====
-- Runs of the integration queue, and its theorems at concrete inputs.
use code_migrator.Base.{
  string_eq, ◌≡◌, refl, true, false, none, some, List, [], ◌∷◌, String, map, ◌++◌, arith, contains,
  get, put,
}
use code_migrator.Integration.{
  IntegrationItem, IntegrationStart, RepairRetryBudget, Op, empty, enqueue, cancel_run,
  mark_prospective_passed, register_verified_head, start_next, latest_verified_oid, step, run,
  op_enqueue, op_mark_passed, op_start_next, op_complete,
}
use code_migrator.Integration.Invariant.{IsConsistent, run-IsConsistent}
use code_migrator.Integration.Order.{
  all_done, all_accepted, strip, completions_exact, completions_in_order,
}
use code_migrator.Integration.Heads.{started, StartsFrom, start_next-StartsFrom, head_advances}
use code_migrator.Integration.Cancel.{IsGone, cancel_run-final, retry_all, spent, spent-retry_all}
use mathlib.Core.List.{Sublist}

abbrev item : String → String → IntegrationItem
item run_id slice_id = record {
  run_id = run_id;
  slice_id = slice_id;
  generation = some 0;
  candidate_commit_oid = "c0";
  prospective_checks_passed = false;
  repair = false;
  repair_decision_id = none;
  replaces_slice_id = none;
  original_generation = none;
}

abbrev ready_ops : List Op
ready_ops =
    op_enqueue (item "r1" "s1")
    ∷ op_enqueue (item "r2" "s1")
    ∷ op_mark_passed "r1" "s1" (some 0)
    ∷ []

abbrev start_ops : List Op
start_ops = ready_ops ++ op_start_next "r1" (some "v0") ∷ []

abbrev ops : List Op
ops = start_ops ++ op_complete true (some "v1") ∷ []

start_head_known : latest_verified_oid (run empty start_ops) "r1" ≡ some "v0"
unfolding latest_verified_oid run step enqueue mark_prospective_passed start_next
    register_verified_head contains get put
start_head_known = refl

run-IsConsistent_example : IsConsistent (run empty ops)
run-IsConsistent_example = run-IsConsistent ops

completions_in_order_example :
    Sublist
      (map strip (all_done empty ops ++ (run empty ops).queue))
      (map strip (all_accepted empty ops))
completions_in_order_example = completions_in_order ops

completions_exact_example :
    map strip (all_done empty ops ++ (run empty ops).queue) ≡ map strip (all_accepted empty ops)
completions_exact_example = completions_exact ops refl

abbrev first_start : IntegrationStart
first_start = record {
  item = record (item "r1" "s1") { prospective_checks_passed = true };
  base_verified_oid = "v0";
}

first_start_made : started (start_next (run empty ready_ops) "r1" (some "v0")).1 ≡ some first_start
unfolding run step enqueue mark_prospective_passed start_next register_verified_head contains get
    put
first_start_made = refl

start_next-StartsFrom_example :
    StartsFrom
      (run empty ready_ops)
      "r1"
      first_start
      (start_next (run empty ready_ops) "r1" (some "v0")).0
start_next-StartsFrom_example =
    start_next-StartsFrom (run empty ready_ops) "r1" (some "v0") first_start first_start_made

head_advances_example :
    latest_verified_oid (step (run empty start_ops) (op_complete true (some "v1"))) "r1" ≡ some "v1"
unfolding run step enqueue mark_prospective_passed start_next register_verified_head contains get
    put
head_advances_example =
    head_advances (run empty start_ops) (op_complete true (some "v1")) "r1" "v0" start_head_known

cancel_run-final_example : IsGone "r1" (run (cancel_run (run empty ready_ops) "r1") ops)
cancel_run-final_example = cancel_run-final ready_ops ops "r1"

abbrev budget : RepairRetryBudget
budget = record { limit = 3; attempts = [] }

spent-retry_all_example : spent (retry_all budget ("k" ∷ "k" ∷ "j" ∷ "k" ∷ "k" ∷ [])) "k" ≡ 3
unfolding get
spent-retry_all_example =
    spent-retry_all budget ("k" ∷ "k" ∷ "j" ∷ "k" ∷ "k" ∷ []) "k" (omega arith)
