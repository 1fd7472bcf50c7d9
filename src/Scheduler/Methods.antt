-- ===== src/Scheduler/Methods.antt =====
-- runtime/scheduler.py: submissions, outcomes and restored facts. A method returns the scheduler
-- that it leaves, also where it raises.
use code_migrator.Base.{
  string_eq, nat_eq, list_eq, ℕ, String, Bool, true, false, not, ◌&&◌, Option, none, some, List, [],
  ◌∷◌, ◌++◌, Result, ok, err, ◌==◌, if◌then◌else◌, keep, contains, add, discard, subset, get, put,
  pop, Text,
}
use code_migrator.Scheduler.Slices.{
  pool_eq, SchedulerError, ReadySlice, minus, set_equal, Identity, identity_beq, identity_eq,
  identity, FairScheduler, at, cannot_replace_generation, cannot_replace_facts,
}

-- The first queued slice with the id, and its replacement.
unfoldable pub find_slice : String → List ReadySlice → Option ReadySlice
find_slice slice_id [] = none
find_slice slice_id (item ∷ rest) =
    if item.slice_id == slice_id then some item else find_slice slice_id rest

unfoldable pub replace_slice : ReadySlice → List ReadySlice → List ReadySlice
replace_slice new_item [] = []
replace_slice new_item (item ∷ rest) =
    if item.slice_id == new_item.slice_id
    then new_item ∷ rest
    else item ∷ replace_slice new_item rest

abbrev pub scope_equal : List Text → List Text → Bool
scope_equal a b = subset a b && subset b a

-- `==` of two slices: the frozen sets compare as sets.
unfoldable pub same_facts : ReadySlice → ReadySlice → Bool
same_facts a b =
    identity_beq (identity a) (identity b)
    && set_equal a.dependencies b.dependencies
    && scope_equal a.write_scope b.write_scope
    && a.resource_pool == b.resource_pool
    && set_equal a.ordered_before_dependencies b.ordered_before_dependencies
    && set_equal a.requires_dependencies b.requires_dependencies

abbrev pub is_slice : String → String → Identity → Bool
is_slice run_id slice_id i = i.run_id == run_id && i.slice_id == slice_id

-- The identities of other slices.
abbrev pub forget_slice : String → String → List Identity → List Identity
forget_slice run_id slice_id = keep (λ i. not (is_slice run_id slice_id i))

-- `self._integrated[run_id].discard(slice_id)`, and the other sets alike.
abbrev pub discard_at : String → String → List (String × List String) → List (String × List String)
discard_at run_id slice_id d = put run_id (discard slice_id (at d run_id)) d

abbrev pub add_at : String → String → List (String × List String) → List (String × List String)
add_at run_id slice_id d = put run_id (add slice_id (at d run_id)) d

-- A new generation of a slice has no outcome yet.
abbrev pub reset_outcome : FairScheduler → ReadySlice → FairScheduler
reset_outcome s item = record s {
  integrated = discard_at item.run_id item.slice_id s.integrated;
  terminal_failed = discard_at item.run_id item.slice_id s.terminal_failed;
  awaiting_integration = forget_slice item.run_id item.slice_id s.awaiting_integration;
}

abbrev pub enqueue_slice : FairScheduler → ReadySlice → FairScheduler
enqueue_slice s item = record s {
  queues = put item.run_id (at s.queues item.run_id ++ item ∷ []) s.queues;
  run_order = elim (get item.run_id s.queues) [
    | none ↦ s.run_order ++ item.run_id ∷ []
    | some queue ↦ s.run_order
  ];
}

-- `queue[existing_index] = item`
abbrev pub store_slice : FairScheduler → ReadySlice → FairScheduler
store_slice s item = record s {
  queues = put item.run_id (replace_slice item (at s.queues item.run_id)) s.queues;
}

unfoldable pub submit_over :
    FairScheduler → ReadySlice → ReadySlice → FairScheduler × Result SchedulerError (Unit {0})
submit_over s item existing =
    if contains (identity existing) s.in_flight && not (identity existing == identity item)
    then (s, err cannot_replace_generation)
    else if not (same_facts existing item) && contains (identity existing) s.in_flight
    then (s, err cannot_replace_facts)
    else if not (existing.generation == item.generation)
    then (store_slice (reset_outcome s item) item, ok tt)
    else (store_slice s item, ok tt)

unfoldable pub submit :
    FairScheduler → ReadySlice → FairScheduler × Result SchedulerError (Unit {0})
submit s item = elim (find_slice item.slice_id (at s.queues item.run_id)) [
  | none ↦ (enqueue_slice s item, ok tt)
  | some existing ↦ submit_over s item existing
]

abbrev pub generation_in : List ReadySlice → String → Option ℕ
generation_in queue slice_id = elim (find_slice slice_id queue) [
  | none ↦ none
  | some item ↦ some item.generation
]

unfoldable pub generation_for : FairScheduler → String → String → Option ℕ → Option ℕ
generation_for s run_id slice_id (some generation) = some generation
generation_for s run_id slice_id none = generation_in (at s.queues run_id) slice_id

-- Drops the reservation of an identity.
abbrev pub unreserve : FairScheduler → Identity → FairScheduler
unreserve s i = record s {
  in_flight = discard i s.in_flight;
  in_flight_scopes = pop i s.in_flight_scopes;
}

abbrev pub unreserve_at : FairScheduler → String → String → Option ℕ → FairScheduler
unreserve_at s run_id slice_id none = s
unreserve_at s run_id slice_id (some generation) =
    unreserve s (record { run_id = run_id; slice_id = slice_id; generation = generation })

abbrev pub record_integrated : FairScheduler → String → String → FairScheduler
record_integrated s run_id slice_id = record s {
  integrated = add_at run_id slice_id s.integrated;
  terminal_failed = discard_at run_id slice_id s.terminal_failed;
  awaiting_integration = forget_slice run_id slice_id s.awaiting_integration;
}

-- `generation is None or generation == current_generation`
abbrev pub is_current : Option ℕ → Option ℕ → Bool
is_current none current = true
is_current (some g) none = false
is_current (some g) (some c) = g == c

unfoldable pub mark_integrated : FairScheduler → String → String → Option ℕ → FairScheduler
mark_integrated s run_id slice_id generation =
    let current = generation_for s run_id slice_id none in
    let selected : Option ℕ = elim generation [ none ↦ current | some g ↦ some g ] in
    let s' : FairScheduler =
      if is_current generation current then record_integrated s run_id slice_id else s in
    unreserve_at s' run_id slice_id selected

-- `complete`, the older name.
unfoldable pub complete : FairScheduler → String → String → Option ℕ → FairScheduler
unfolding mark_integrated
complete s run_id slice_id generation = mark_integrated s run_id slice_id generation

unfoldable pub release : FairScheduler → String → String → Option ℕ → FairScheduler
release s run_id slice_id generation =
    unreserve_at s run_id slice_id (generation_for s run_id slice_id generation)

unfoldable pub await_integration : FairScheduler → String → String → ℕ → FairScheduler
await_integration s run_id slice_id generation =
    let i : Identity = record { run_id = run_id; slice_id = slice_id; generation = generation } in
    unreserve (record s { awaiting_integration = add i s.awaiting_integration }) i

unfoldable pub restore_committed_facts :
    FairScheduler → String → List String → List String → FairScheduler
restore_committed_facts s run_id integrated failed = record s {
  integrated = put run_id integrated s.integrated;
  terminal_failed = put run_id (minus failed integrated) s.terminal_failed;
  awaiting_integration = keep (λ i. not (i.run_id == run_id)) s.awaiting_integration;
}
