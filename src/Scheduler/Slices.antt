-- ===== src/Scheduler/Slices.antt =====
-- runtime/scheduler.py: ready slices, their identities and scopes, and the scheduler's state.
use code_migrator.Base.{
  string_eq, nat_eq, list_eq, PyEq, ℕ, String, ◌≡◌, ◌↔◌, Bool, true, false, not, ◌&&◌, ◌||◌, Option,
  none, some, List, [], ◌∷◌, ◌++◌, arith, eq_iff, Result, ok, err, ◌==◌, if◌then◌else◌, keep, any,
  contains, subset, get, get_or, Text, starts_with, rstrip, slash,
}

pub data ResourcePool : Type 0 where
  model sandbox adjudication : ResourcePool

abbrev pub pool_beq : ResourcePool → ResourcePool → Bool
pool_beq model model = true
pool_beq sandbox sandbox = true
pool_beq adjudication adjudication = true
pool_beq _ _ = false

pub pool_beq_iff : (a b : ResourcePool) → (pool_beq a b ≡ true) ↔ (a ≡ b)
pool_beq_iff a b = ground arith

instance abbrev pub pool_eq : PyEq ResourcePool
pool_eq = record { equals = pool_beq; equals_iff = pool_beq_iff }

-- The exceptions of this file, each by its message.
pub data SchedulerError : Type 0 where
  predecessors_must_be_declared : SchedulerError
  kinds_must_cover : SchedulerError
  cannot_replace_generation : SchedulerError
  cannot_replace_facts : SchedulerError

-- A slice after `__post_init__`, which always sets the predecessors that it requires.
pub record ReadySlice : Type 0 where
  pub run_id : String
  pub slice_id : String
  pub dependencies : List String
  pub write_scope : List Text
  pub resource_pool : ResourcePool
  pub generation : ℕ
  pub ordered_before_dependencies : List String
  pub requires_dependencies : List String

-- `a - b` on sets.
abbrev pub minus : List String → List String → List String
minus a b = keep (λ x. not (contains x b)) a

abbrev pub set_equal : List String → List String → Bool
set_equal a b = subset a b && subset b a

-- The predecessors that are required, where the caller leaves them out.
abbrev pub required : List String → List String → Option (List String) → List String
required dependencies ordered none = minus dependencies ordered
required dependencies ordered (some requires) = requires

-- `ReadySlice(...)`: the constructor with its checks. A generation is a number here.
unfoldable pub ready_slice :
    String
    → String
    → List String
    → List Text
    → ResourcePool
    → ℕ
    → List String
    → Option (List String)
    → Result SchedulerError ReadySlice
ready_slice run_id slice_id dependencies scope pool generation ordered requires =
    let needed = required dependencies ordered requires in
    if not (subset ordered dependencies) || not (subset needed dependencies)
    then err predecessors_must_be_declared
    else if not (set_equal dependencies (ordered ++ needed))
    then err kinds_must_cover
    else ok (record {
      run_id = run_id;
      slice_id = slice_id;
      dependencies = dependencies;
      write_scope = scope;
      resource_pool = pool;
      generation = generation;
      ordered_before_dependencies = ordered;
      requires_dependencies = needed;
    })

-- `(run_id, slice_id, generation)`
pub record Identity : Type 0 where
  pub run_id : String
  pub slice_id : String
  pub generation : ℕ

abbrev pub identity_beq : Identity → Identity → Bool
identity_beq a b = a.run_id == b.run_id && a.slice_id == b.slice_id && a.generation == b.generation

pub identity_beq_iff : (a b : Identity) → (identity_beq a b ≡ true) ↔ (a ≡ b)
identity_beq_iff a b = ground (arith, eq_iff a.run_id b.run_id, eq_iff a.slice_id b.slice_id)

instance abbrev pub identity_eq : PyEq Identity
identity_eq = record { equals = identity_beq; equals_iff = identity_beq_iff }

abbrev pub identity : ReadySlice → Identity
identity item = record {
  run_id = item.run_id;
  slice_id = item.slice_id;
  generation = item.generation;
}

pub record FairScheduler : Type 0 where
  pub queues : List (String × List ReadySlice)
  pub integrated : List (String × List String)
  pub terminal_failed : List (String × List String)
  pub awaiting_integration : List Identity
  pub in_flight : List Identity
  pub in_flight_scopes : List (Identity × List Text)
  pub run_order : List String
  pub cursor : ℕ

abbrev pub new : FairScheduler
new = record {
  queues = [];
  integrated = [];
  terminal_failed = [];
  awaiting_integration = [];
  in_flight = [];
  in_flight_scopes = [];
  run_order = [];
  cursor = 0;
}

-- A read of a `defaultdict` of lists or sets.
abbrev pub at {ℓ} : {A : Type ℓ} → List (String × List A) → String → List A
at d k = get_or [] (get k d)

-- `first == second`, or one lies below the other.
abbrev pub below : Text → Text → Bool
below first second = starts_with first (rstrip slash second ++ slash ∷ [])

abbrev pub paths_overlap : Text → Text → Bool
paths_overlap first second =
    list_eq.equals first second || (below first second || below second first)

unfoldable pub scopes_overlap : List Text → List Text → Bool
scopes_overlap left right = any (λ first. any (λ second. paths_overlap first second) right) left
