-- ===== src/Integration/Cancel.antt =====
-- runtime/integration.py: a cancelled run stays out of the queue; the retry budget.
use Prim.Native.Nat.{min}
use code_migrator.Base.{
  string_eq, ℕ, suc, ◌+◌, ◌≤◌, String, ◌≡◌, refl, ap, ◌∙◌, Bool, true, false, Option, none, some,
  List, [], ◌∷◌, arith, eq_iff, if◌then◌else◌, contains, contains-add, get, get-put, get_or, ok,
  err, All, ◌==◌,
}
use code_migrator.Integration.{
  IntegrationItem, IntegrationCoordinator, Outcome, RepairRetryBudget, Op, empty, enqueue,
  cancel_run, revoke_slice, enqueue_repair, mark_prospective_passed, register_verified_head,
  start_after, start_from, start_head, start_next, complete, complete_active, record_retry,
  active_if, in_run, step, run, op_enqueue, op_cancel_run, op_revoke_slice, op_enqueue_repair,
  op_mark_passed, op_register_head, op_start_next, op_complete,
}
use code_migrator.Integration.Invariant.{
  IsConsistent, HeadsQueue, NotCancelled, register-SameQueue, run-IsConsistent,
  run_from-IsConsistent, step-IsConsistent,
}

-- The set of cancelled runs only grows.
start_after-cancelled :
    (o : Outcome (Unit {0})) (x : IntegrationItem) (oid : String)
    → (start_after o x oid).0.cancelled_runs ≡ o.0.cancelled_runs
unfolding start_after
start_after-cancelled (c, ok u) x oid = refl
start_after-cancelled (c, err e) x oid = refl

start_from-cancelled :
    (c : IntegrationCoordinator) (k : String) (x : IntegrationItem) (base latest : Option String)
    → (start_from c k x base latest).0.cancelled_runs ≡ c.cancelled_runs
unfolding start_from
start_from-cancelled c k x (some oid) latest = refl
start_from-cancelled c k x none none = refl
start_from-cancelled c k x none (some latest) =
    start_after-cancelled (register_verified_head c k latest) x latest
    ∙ (register-SameQueue c k latest).2

start_head-cancelled :
    (c : IntegrationCoordinator) (k : String) (xs : List IntegrationItem) (latest : Option String)
    → (start_head c k xs latest).0.cancelled_runs ≡ c.cancelled_runs
unfolding start_head
start_head-cancelled c k [] latest = refl
start_head-cancelled c k (x ∷ xs) latest =
    ground (arith, start_from-cancelled c k x (get k c.verified_oids) latest)

start_next-cancelled :
    (c : IntegrationCoordinator) (k : String) (latest : Option String)
    → (start_next c k latest).0.cancelled_runs ≡ c.cancelled_runs
unfolding start_next
start_next-cancelled c k latest = ground (arith, start_head-cancelled c k c.queue latest)

complete-cancelled :
    (c : IntegrationCoordinator) (success : Bool) (new : Option String)
    → (complete c success new).0.cancelled_runs ≡ c.cancelled_runs
unfolding complete complete_active
complete-cancelled c success new = ground arith

step-cancelled :
    (c : IntegrationCoordinator) (op : Op) (r : String)
    → contains r c.cancelled_runs ≡ true
    → contains r (step c op).cancelled_runs ≡ true
unfolding step
step-cancelled c (op_enqueue item) r h = unfold enqueue in ground arith
step-cancelled c (op_cancel_run k) r h =
    unfold cancel_run in ground (arith, contains-add k r c.cancelled_runs)
step-cancelled c (op_revoke_slice k s) r h = unfold revoke_slice in ground arith
step-cancelled c (op_enqueue_repair item) r h = unfold enqueue_repair enqueue in ground arith
step-cancelled c (op_mark_passed k s g) r h = unfold mark_prospective_passed in h
step-cancelled c (op_register_head k oid) r h = ap (contains r) (register-SameQueue c k oid).2 ∙ h
step-cancelled c (op_start_next k latest) r h =
    ap (contains r) (start_next-cancelled c k latest) ∙ h
step-cancelled c (op_complete success new) r h =
    ap (contains r) (complete-cancelled c success new) ∙ h

run-cancelled :
    (c : IntegrationCoordinator) (ops : List Op) (r : String)
    → contains r c.cancelled_runs ≡ true
    → contains r (run c ops).cancelled_runs ≡ true
unfolding run
run-cancelled c [] r h = h
run-cancelled c (op ∷ ops) r h = run-cancelled (step c op) ops r (step-cancelled c op r h)

-- No trace of the run is left where an integration could start.
pub record IsGone (r : String) (c : IntegrationCoordinator) : Type 0 where
  pub queue : All (λ item. (item.run_id == r) ≡ false) c.queue
  pub active : active_if (in_run r) c.active ≡ false
  pub refused : (item : IntegrationItem) → item.run_id ≡ r → enqueue c item ≡ (c, false)
  pub unstarted : (latest : Option String) → start_next c r latest ≡ (c, ok none)

queue-IsGone :
    (r : String) (runs : List String) (xs : List IntegrationItem)
    → contains r runs ≡ true
    → All (NotCancelled runs) xs
    → All (λ item. (item.run_id == r) ≡ false) xs
queue-IsGone r runs [] m h = tt
queue-IsGone r runs (x ∷ xs) m h =
    (ground (arith, eq_iff x.run_id r, h.0), queue-IsGone r runs xs m h.1)

active-IsGone :
    (r : String) (a : Option IntegrationItem) (xs : List IntegrationItem)
    → HeadsQueue a xs
    → All (λ item. (item.run_id == r) ≡ false) xs
    → active_if (in_run r) a ≡ false
active-IsGone r none xs h q = refl
active-IsGone r (some a) [] h q = absurd h
active-IsGone r (some a) (x ∷ xs) h q = ap (in_run r) h.0 ∙ q.0

cancelled-IsGone :
    (r : String) (c : IntegrationCoordinator)
    → contains r c.cancelled_runs ≡ true
    → IsConsistent c
    → IsGone r c
cancelled-IsGone r c m h =
    let q = queue-IsGone r c.cancelled_runs c.queue m h.live in
    record {
      queue = q;
      active = active-IsGone r c.active c.queue h.heads q;
      refused = λ item e. unfold enqueue in ground (arith, m);
      unstarted = λ latest. unfold start_next in ground (arith, m);
    }

-- Cancelling a run is final: after any calls, the cancellation, and any further calls, the run
-- has no queued and no active item, every new item of it is refused, and `start_next` starts
-- nothing for it.
pub cancel_run-final :
    (before after : List Op) (r : String) → IsGone r (run (cancel_run (run empty before) r) after)
cancel_run-final before after r =
    let c = run empty before in
    let h : IsConsistent (cancel_run c r) =
      unfold step in step-IsConsistent c (op_cancel_run r) (run-IsConsistent before) in
    cancelled-IsGone r (run (cancel_run c r) after)
      (run-cancelled (cancel_run c r) after r
        (unfold cancel_run in ground (arith, contains-add r r c.cancelled_runs, eq_iff r r)))
      (run_from-IsConsistent (cancel_run c r) after h)

-- The calls of `record` for a list of keys, errors ignored.
pub retry_all : RepairRetryBudget → List String → RepairRetryBudget
retry_all b [] = b
retry_all b (key ∷ keys) = retry_all (record_retry b key).0 keys

abbrev pub occurrences : String → List String → ℕ
occurrences k [] = 0
occurrences k (j ∷ js) = let rest = occurrences k js in if j == k then suc rest else rest

abbrev pub spent : RepairRetryBudget → String → ℕ
spent b key = get_or 0 (get key b.attempts)

spent-record :
    (b : RepairRetryBudget) (k j : String)
    → spent b j ≤ b.limit
    → spent (record_retry b k).0 j ≡ (if k == j then min b.limit (spent b j + 1) else spent b j)
unfolding record_retry
spent-record b k j h = ground (arith, get-put k j (spent b k + 1) b.attempts, eq_iff k j)

limit-record : (b : RepairRetryBudget) (k : String) → (record_retry b k).0.limit ≡ b.limit
unfolding record_retry
limit-record b k = ground arith

-- Any sequence of retries, failed calls included, leaves at each key the number of its calls, cut
-- at the limit, on top of what was spent before.
pub spent-retry_all :
    (b : RepairRetryBudget) (keys : List String) (j : String)
    → spent b j ≤ b.limit
    → spent (retry_all b keys) j ≡ min b.limit (spent b j + occurrences j keys)
unfolding retry_all
spent-retry_all b [] j h = omega arith
spent-retry_all b (k ∷ keys) j h =
    ground
      (arith, spent-record b k j h, limit-record b k, spent-retry_all (record_retry b k).0 keys j)
