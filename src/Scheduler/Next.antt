-- ===== src/Scheduler/Next.antt =====
-- runtime/scheduler.py: `next`, the choice of the slice to dispatch.
use code_migrator.Base.{
  string_eq, nat_eq, list_eq, ℕ, zero, suc, ◌+◌, ◌%◌, String, Bool, true, not, ◌&&◌, ◌||◌, Option,
  none, some, List, [], ◌∷◌, ◌++◌, ◌==◌, if◌then◌else◌, contains, add, subset, put, length,
  get_elem?, Text,
}
use code_migrator.Scheduler.Methods.{
  submit, complete, mark_integrated, release, await_integration, restore_committed_facts,
}
use code_migrator.Scheduler.Slices.{
  ResourcePool, pool_eq, ReadySlice, Identity, identity_eq, identity, FairScheduler, at,
  scopes_overlap,
}

-- The scopes of the reservations of one run.
unfoldable pub reserved_scopes : String → List (Identity × List Text) → List Text
reserved_scopes run_id [] = []
reserved_scopes run_id ((i, scopes) ∷ rest) =
    let others = reserved_scopes run_id rest in
    if i.run_id == run_id then scopes ++ others else others

-- The facts that keep a slice of a run from being dispatched.
unfoldable pub is_held : FairScheduler → String → ReadySlice → Bool
is_held s run_id item =
    let integrated = at s.integrated run_id in
    let failed = at s.terminal_failed run_id in
    contains item.slice_id integrated
    || (contains item.slice_id failed
        || (contains (identity item) s.in_flight
            || (contains (identity item) s.awaiting_integration
                || (not (subset item.requires_dependencies integrated)
                    || not (subset item.ordered_before_dependencies (integrated ++ failed))))))

-- One round of the inner loop of `next`: the slice passes all its guards.
unfoldable pub is_ready : FairScheduler → List Text → List ResourcePool → String → ReadySlice → Bool
is_ready s active_scopes pools run_id item =
    not (is_held s run_id item)
    && (contains item.resource_pool pools
        && not (
            scopes_overlap item.write_scope
              (active_scopes ++ reserved_scopes run_id s.in_flight_scopes)))

-- The first element that passes a test.
abbrev pub first_that {ℓ} : {A : Type ℓ} → (A → Bool) → List A → Option A
first_that p [] = none
first_that p (x ∷ xs) = if p x then some x else first_that p xs

abbrev pub dispatch : FairScheduler → ReadySlice → ℕ → FairScheduler
dispatch s item index = record s {
  in_flight = add (identity item) s.in_flight;
  in_flight_scopes = put (identity item) item.write_scope s.in_flight_scopes;
  cursor = (index + 1) % length s.run_order;
}

-- `only_run_id is not None and run_id != only_run_id`, the other way round.
abbrev pub is_allowed : Option String → String → Bool
is_allowed none run_id = true
is_allowed (some only) run_id = run_id == only

-- The slice that the run at an index offers.
unfoldable pub offer :
    FairScheduler → List Text → List ResourcePool → Option String → String → Option ReadySlice
offer s active_scopes pools only run_id =
    if is_allowed only run_id
    then first_that (is_ready s active_scopes pools run_id) (at s.queues run_id)
    else none

unfoldable pub offer_at :
    FairScheduler → List Text → List ResourcePool → Option String → ℕ → Option ReadySlice
offer_at s active_scopes pools only index = elim (get_elem? s.run_order index) [
  | none ↦ none
  | some run_id ↦ offer s active_scopes pools only run_id
]

-- The outer loop of `next`, with the rounds left: the first index, from the cursor on and round
-- the order of runs, whose run offers a slice.
unfoldable pub search_from :
    FairScheduler → List Text → List ResourcePool → Option String → ℕ → ℕ → Option (ReadySlice × ℕ)
search_from s active_scopes pools only zero offset = none
search_from s active_scopes pools only (suc rounds) offset =
    let index = (s.cursor + offset) % length s.run_order in
    elim (offer_at s active_scopes pools only index) [
      | some item ↦ some (item, index)
      | none ↦ search_from s active_scopes pools only rounds (suc offset)
    ]

unfoldable pub next :
    FairScheduler
    → List Text
    → List ResourcePool
    → Option String
    → FairScheduler × Option ReadySlice
next s active_scopes pools only =
    elim (search_from s active_scopes pools only (length s.run_order) 0) [
      | none ↦ (s, none)
      | some (item, index) ↦ (dispatch s item index, some item)
    ]

-- One call of a method, with its arguments.
pub data Op : Type 0 where
  op_submit : ReadySlice → Op
  op_complete : String → String → Option ℕ → Op
  op_mark_integrated : String → String → Option ℕ → Op
  op_release : String → String → Option ℕ → Op
  op_await_integration : String → String → ℕ → Op
  op_restore : String → List String → List String → Op
  op_next : List Text → List ResourcePool → Option String → Op

unfoldable pub step : FairScheduler → Op → FairScheduler
step s (op_submit item) = (submit s item).0
step s (op_complete run_id slice_id generation) = complete s run_id slice_id generation
step s (op_mark_integrated run_id slice_id generation) =
    mark_integrated s run_id slice_id generation
step s (op_release run_id slice_id generation) = release s run_id slice_id generation
step s (op_await_integration run_id slice_id generation) =
    await_integration s run_id slice_id generation
step s (op_restore run_id integrated failed) = restore_committed_facts s run_id integrated failed
step s (op_next active_scopes pools only) = (next s active_scopes pools only).0

unfoldable pub run : FairScheduler → List Op → FairScheduler
run s [] = s
run s (op ∷ ops) = run (step s op) ops
