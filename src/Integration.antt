-- ===== src/Integration.antt =====
-- runtime/integration.py: the FIFO of candidate integrations, its verified heads, and the retry
-- budget of repairs. A method returns the coordinator that it leaves, also where it raises.
pub mod Invariant
pub mod Order
pub mod Heads
pub mod Cancel
mod Examples
use code_migrator.Base.{
  string_eq, nat_eq, option_eq, ℕ, ◌+◌, String, Bool, true, false, not, ◌&&◌, ◌||◌, Option, none,
  some, List, [], ◌∷◌, ◌++◌, map, Result, ok, err, ltb, nat_beq, ◌==◌, if◌then◌else◌, keep,
  contains, add, length, get, put, get_or,
}

pub record IntegrationItem : Type 0 where
  pub run_id : String
  pub slice_id : String
  pub generation : Option ℕ
  pub candidate_commit_oid : String
  pub prospective_checks_passed : Bool
  pub repair : Bool
  pub repair_decision_id : Option String
  pub replaces_slice_id : Option String
  pub original_generation : Option ℕ

pub record IntegrationStart : Type 0 where
  pub item : IntegrationItem
  pub base_verified_oid : String

pub record IntegrationCoordinator : Type 0 where
  pub queue : List IntegrationItem
  pub active : Option IntegrationItem
  pub verified_oids : List (String × String)
  pub cancelled_runs : List String

abbrev pub empty : IntegrationCoordinator
empty = record { queue = []; active = none; verified_oids = []; cancelled_runs = [] }

-- The exceptions of this file, each by its message.
pub data IntegrationError : Type 0 where
  active_item_cannot_be_revoked : IntegrationError
  must_be_marked_repair : IntegrationError
  must_not_have_generation : IntegrationError
  requires_decision_identity : IntegrationError
  empty_head : IntegrationError
  head_may_only_advance : IntegrationError
  requires_new_verified_oid : IntegrationError

-- A method: the coordinator afterwards, and what was returned or raised.
abbrev pub Outcome : Type 0 → Type 0
Outcome A = IntegrationCoordinator × Result IntegrationError A

unfoldable pub enqueue : IntegrationCoordinator → IntegrationItem → IntegrationCoordinator × Bool
enqueue c item =
    if contains item.run_id c.cancelled_runs
    then (c, false)
    else (record c { queue = c.queue ++ item ∷ [] }, true)

abbrev pub in_run : String → IntegrationItem → Bool
in_run run_id item = item.run_id == run_id

abbrev pub in_slice : String → String → IntegrationItem → Bool
in_slice run_id slice_id item = item.run_id == run_id && item.slice_id == slice_id

abbrev pub active_if : (IntegrationItem → Bool) → Option IntegrationItem → Bool
active_if p none = false
active_if p (some item) = p item

unfoldable pub cancel_run : IntegrationCoordinator → String → IntegrationCoordinator
cancel_run c run_id = record c {
  cancelled_runs = add run_id c.cancelled_runs;
  queue = keep (λ item. not (in_run run_id item)) c.queue;
  active = if active_if (in_run run_id) c.active then none else c.active;
}

unfoldable pub revoke_slice : IntegrationCoordinator → String → String → Outcome Bool
revoke_slice c run_id slice_id =
    let left = keep (λ item. not (in_slice run_id slice_id item)) c.queue in
    if active_if (in_slice run_id slice_id) c.active
    then (c, err active_item_cannot_be_revoked)
    else (record c { queue = left }, ok (not (nat_beq (length left) (length c.queue))))

-- Python's truth value of an optional text.
abbrev pub is_given : Option String → Bool
is_given none = false
is_given (some s) = not (s == "")

abbrev pub is_some {ℓ} : {A : Type ℓ} → Option A → Bool
is_some none = false
is_some (some a) = true

unfoldable pub enqueue_repair : IntegrationCoordinator → IntegrationItem → Outcome Bool
enqueue_repair c item =
    let (c', accepted) = enqueue c item in
    if not item.repair
    then (c, err must_be_marked_repair)
    else if is_some item.generation
    then (c, err must_not_have_generation)
    else if not (is_given item.repair_decision_id)
    then (c, err requires_decision_identity)
    else (c', ok accepted)

abbrev pub mark_item : String → String → Option ℕ → IntegrationItem → IntegrationItem
mark_item run_id slice_id generation item =
    if in_slice run_id slice_id item && item.generation == generation
    then record item { prospective_checks_passed = true }
    else item

unfoldable pub mark_prospective_passed :
    IntegrationCoordinator → String → String → Option ℕ → IntegrationCoordinator
mark_prospective_passed c run_id slice_id generation = record c {
  queue = map (mark_item run_id slice_id generation) c.queue;
}

abbrev pub differs : Option String → String → Bool
differs none oid = false
differs (some existing) oid = not (existing == oid)

unfoldable pub register_verified_head :
    IntegrationCoordinator → String → String → Outcome (Unit {0})
register_verified_head c run_id oid =
    if run_id == "" || oid == ""
    then (c, err empty_head)
    else if differs (get run_id c.verified_oids) oid
    then (c, err head_may_only_advance)
    else (record c { verified_oids = put run_id oid c.verified_oids }, ok tt)

-- `self._active = item`, and the start that is returned.
abbrev pub activate :
    IntegrationCoordinator → IntegrationItem → String → Outcome (Option IntegrationStart)
activate c item oid =
    (record c { active = some item }, ok (some (record { item = item; base_verified_oid = oid })))

-- What follows the call of `register_verified_head` in `start_next`.
start_after : Outcome (Unit {0}) → IntegrationItem → String → Outcome (Option IntegrationStart)
start_after (c, ok _) item latest = activate c item latest
start_after (c, err e) item latest = (c, err e)

-- The last part of `start_next`: the base is the registered head, or else the one given.
start_from :
    IntegrationCoordinator
    → String
    → IntegrationItem
    → Option String
    → Option String
    → Outcome (Option IntegrationStart)
unfolding start_after
start_from c run_id item (some oid) latest = activate c item oid
start_from c run_id item none none = (c, ok none)
start_from c run_id item none (some latest) =
    start_after (register_verified_head c run_id latest) item latest

-- The part of `start_next` that looks at the queue's head.
start_head :
    IntegrationCoordinator
    → String
    → List IntegrationItem
    → Option String
    → Outcome (Option IntegrationStart)
unfolding start_from
start_head c run_id [] latest = (c, ok none)
start_head c run_id (item ∷ rest) latest =
    if not (item.run_id == run_id)
    then (c, ok none)
    else if not item.prospective_checks_passed
    then (c, ok none)
    else start_from c run_id item (get run_id c.verified_oids) latest

unfoldable pub start_next :
    IntegrationCoordinator → String → Option String → Outcome (Option IntegrationStart)
unfolding start_head
start_next c run_id latest =
    if is_some c.active
    then (c, ok none)
    else if contains run_id c.cancelled_runs
    then (c, ok none)
    else start_head c run_id c.queue latest

-- `popleft` of a deque; it raises on an empty one, which `Invariant` rules out here.
abbrev pub popleft : List IntegrationItem → List IntegrationItem
popleft [] = []
popleft (item ∷ rest) = rest

complete_active :
    IntegrationCoordinator
    → IntegrationItem
    → Bool
    → Option String
    → Outcome (Option IntegrationItem)
complete_active c item false new = (record c { active = none }, ok (some item))
complete_active c item true none = (c, err requires_new_verified_oid)
complete_active c item true (some oid) = (
  record c {
    verified_oids = put item.run_id oid c.verified_oids;
    queue = popleft c.queue;
    active = none;
  },
  ok (some item),
)

unfoldable pub complete :
    IntegrationCoordinator → Bool → Option String → Outcome (Option IntegrationItem)
unfolding complete_active
complete c success new = elim c.active [
  | none ↦ (c, ok none)
  | some item ↦ complete_active c item success new
]

unfoldable pub latest_verified_oid : IntegrationCoordinator → String → Option String
latest_verified_oid c run_id = get run_id c.verified_oids

pub record RepairRetryBudget : Type 0 where
  pub limit : ℕ
  pub attempts : List (String × ℕ)

unfoldable pub can_retry : RepairRetryBudget → String → Bool
can_retry b key = ltb (get_or 0 (get key b.attempts)) b.limit

-- `none` is the exception "repair retry limit exhausted".
unfoldable pub record_retry : RepairRetryBudget → String → RepairRetryBudget × Option ℕ
unfolding can_retry
record_retry b key =
    let n = get_or 0 (get key b.attempts) + 1 in
    if can_retry b key then (record b { attempts = put key n b.attempts }, some n) else (b, none)

-- One call of a method, with its arguments.
pub data Op : Type 0 where
  op_enqueue : IntegrationItem → Op
  op_cancel_run : String → Op
  op_revoke_slice : String → String → Op
  op_enqueue_repair : IntegrationItem → Op
  op_mark_passed : String → String → Option ℕ → Op
  op_register_head : String → String → Op
  op_start_next : String → Option String → Op
  op_complete : Bool → Option String → Op

unfoldable pub step : IntegrationCoordinator → Op → IntegrationCoordinator
step c (op_enqueue item) = (enqueue c item).0
step c (op_cancel_run run_id) = cancel_run c run_id
step c (op_revoke_slice run_id slice_id) = (revoke_slice c run_id slice_id).0
step c (op_enqueue_repair item) = (enqueue_repair c item).0
step c (op_mark_passed run_id slice_id generation) =
    mark_prospective_passed c run_id slice_id generation
step c (op_register_head run_id oid) = (register_verified_head c run_id oid).0
step c (op_start_next run_id latest) = (start_next c run_id latest).0
step c (op_complete success new) = (complete c success new).0

unfoldable pub run : IntegrationCoordinator → List Op → IntegrationCoordinator
run c [] = c
run c (op ∷ ops) = run (step c op) ops
