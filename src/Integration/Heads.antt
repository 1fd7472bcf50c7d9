-- ===== src/Integration/Heads.antt =====
-- runtime/integration.py: the verified heads, cancelled runs, and the retry budget.
use code_migrator.Base.{
  string_eq, String, ◌≡◌, refl, ap, sym, ◌∙◌, Bool, true, false, Option, none, some, List, [], ◌∷◌,
  arith, eq_iff, if◌then◌else◌, contains, Bool-cases, Option-cases, inl, inr, get, get-put, Result,
  ok, err, ◌==◌,
}
use code_migrator.Integration.{
  IntegrationItem, IntegrationStart, IntegrationCoordinator, IntegrationError, Outcome, Op, enqueue,
  cancel_run, revoke_slice, enqueue_repair, mark_prospective_passed, register_verified_head,
  start_after, start_from, start_head, start_next, complete, complete_active, latest_verified_oid,
  step, op_enqueue, op_cancel_run, op_revoke_slice, op_enqueue_repair, op_mark_passed,
  op_register_head, op_start_next, op_complete,
}

-- The start that a call returned.
abbrev pub started : Result IntegrationError (Option IntegrationStart) → Option IntegrationStart
started (ok start) = start
started (err e) = none

-- What a start shows: its item waits at the queue's head with its checks passed and is now the
-- active one, and its base is the verified head of the run.
pub record StartsFrom (c : IntegrationCoordinator) (r : String) (s : IntegrationStart)
    (d : IntegrationCoordinator) : Type 0 where
  pub free : c.active ≡ none
  pub live : contains r c.cancelled_runs ≡ false
  pub run : s.item.run_id ≡ r
  pub passed : s.item.prospective_checks_passed ≡ true
  pub rest : List IntegrationItem
  pub head : c.queue ≡ s.item ∷ rest
  pub active : d.active ≡ some s.item
  pub base : get r d.verified_oids ≡ some s.base_verified_oid

register-get :
    (c : IntegrationCoordinator) (r oid : String)
    → (register_verified_head c r oid).1 ≡ ok tt
    → get r (register_verified_head c r oid).0.verified_oids ≡ some oid
unfolding register_verified_head
register-get c r oid h = ground (arith, get-put r r oid c.verified_oids, eq_iff r r)

start_after-base :
    (o : Outcome (Unit {0})) (x : IntegrationItem) (r oid : String) (s : IntegrationStart)
    → (o.1 ≡ ok tt → get r o.0.verified_oids ≡ some oid)
    → started (start_after o x oid).1 ≡ some s
    → (s.item ≡ x)
      × ((start_after o x oid).0.active ≡ some s.item)
      × (get r (start_after o x oid).0.verified_oids ≡ some s.base_verified_oid)
unfolding start_after
start_after-base (c, ok tt) x r oid s g h = ground (arith, g refl)
start_after-base (c, err e) x r oid s g h = ground arith

start_from-base :
    (c : IntegrationCoordinator) (r : String) (x : IntegrationItem) (base latest : Option String)
    (s : IntegrationStart)
    → get r c.verified_oids ≡ base
    → started (start_from c r x base latest).1 ≡ some s
    → (s.item ≡ x)
      × ((start_from c r x base latest).0.active ≡ some s.item)
      × (get r (start_from c r x base latest).0.verified_oids ≡ some s.base_verified_oid)
unfolding start_from
start_from-base c r x (some oid) latest s g h = ground arith
start_from-base c r x none none s g h = ground arith
start_from-base c r x none (some latest) s g h =
    start_after-base (register_verified_head c r latest) x r latest s (register-get c r latest) h

start_head-StartsFrom :
    (c : IntegrationCoordinator) (r : String) (xs : List IntegrationItem) (latest : Option String)
    (s : IntegrationStart)
    → c.active ≡ none
    → contains r c.cancelled_runs ≡ false
    → c.queue ≡ xs
    → started (start_head c r xs latest).1 ≡ some s
    → StartsFrom c r s (start_head c r xs latest).0
unfolding start_head
start_head-StartsFrom c r [] latest s a n q h = absurd (ground arith)
start_head-StartsFrom c r (x ∷ xs) latest s a n q h = elim (Bool-cases (x.run_id == r)) [
  | inr e ↦ absurd (ground (arith, simp e at h))
  | inl e ↦ elim (Bool-cases x.prospective_checks_passed) [
    | inr f ↦ absurd (ground (arith, simp (e, f) at h))
    | inl f ↦
        let base = start_from-base c r x (get r c.verified_oids) latest s refl (simp (e, f) at h) in
        simp (e, f)
          (record {
            free = a;
            live = n;
            run = ap (λ (i : IntegrationItem). i.run_id) base.0 ∙ (eq_iff x.run_id r).0 e;
            passed = ap (λ (i : IntegrationItem). i.prospective_checks_passed) base.0 ∙ f;
            rest = xs;
            head = q ∙ ap (λ i. i ∷ xs) (sym base.0);
            active = base.1;
            base = base.2;
          })
  ]
]

-- Whenever `start_next` starts an integration for a run, none was active, the run is not
-- cancelled, the item started is the queue's head, belongs to the run and has passed its
-- prospective checks, it is the active item afterwards, and its base is the verified head that
-- the coordinator then holds for the run.
pub start_next-StartsFrom :
    (c : IntegrationCoordinator) (r : String) (latest : Option String) (s : IntegrationStart)
    → started (start_next c r latest).1 ≡ some s
    → StartsFrom c r s (start_next c r latest).0
unfolding start_next
start_next-StartsFrom c r latest s h = elim (Option-cases c.active) [
  | inr (x, e) ↦ absurd (ground (arith, simp e at h))
  | inl e ↦ elim (Bool-cases (contains r c.cancelled_runs)) [
    | inl f ↦ absurd (ground (arith, simp (e, f) at h))
    | inr f ↦ simp (e, f) (start_head-StartsFrom c r c.queue latest s e f refl (simp (e, f) at h))
  ]
]

-- A successful completion of an item of the run.
abbrev pub completed_in : Option IntegrationItem → Bool → Option String → String → Bool
completed_in (some item) true (some oid) r = item.run_id == r
completed_in _ _ _ r = false

abbrev pub completes : IntegrationCoordinator → Op → String → Bool
completes c (op_complete success new) r = completed_in c.active success new r
completes c _ r = false

-- The head of a run after a call: the new verified oid where the call completes an integration
-- of the run with success, and otherwise what it was.
abbrev pub new_head : Op → Option String
new_head (op_complete success new) = new
new_head _ = none

register-get_kept :
    (c : IntegrationCoordinator) (k oid r v : String)
    → get r c.verified_oids ≡ some v
    → get r (register_verified_head c k oid).0.verified_oids ≡ some v
unfolding register_verified_head
register-get_kept c k oid r v h =
    ground (arith, get-put k r oid c.verified_oids, eq_iff k r, eq_iff v oid)

start_after-heads :
    (o : Outcome (Unit {0})) (x : IntegrationItem) (oid : String)
    → (start_after o x oid).0.verified_oids ≡ o.0.verified_oids
unfolding start_after
start_after-heads (c, ok u) x oid = refl
start_after-heads (c, err e) x oid = refl

start_from-get_kept :
    (c : IntegrationCoordinator) (k : String) (x : IntegrationItem) (base latest : Option String)
    (r v : String)
    → get r c.verified_oids ≡ some v
    → get r (start_from c k x base latest).0.verified_oids ≡ some v
unfolding start_from
start_from-get_kept c k x (some oid) latest r v h = h
start_from-get_kept c k x none none r v h = h
start_from-get_kept c k x none (some latest) r v h =
    ap (get r) (start_after-heads (register_verified_head c k latest) x latest)
    ∙ register-get_kept c k latest r v h

start_head-get_kept :
    (c : IntegrationCoordinator) (k : String) (xs : List IntegrationItem) (latest : Option String)
    (r v : String)
    → get r c.verified_oids ≡ some v
    → get r (start_head c k xs latest).0.verified_oids ≡ some v
unfolding start_head
start_head-get_kept c k [] latest r v h = h
start_head-get_kept c k (x ∷ xs) latest r v h =
    ground (arith, start_from-get_kept c k x (get k c.verified_oids) latest r v)

start_next-get_kept :
    (c : IntegrationCoordinator) (k : String) (latest : Option String) (r v : String)
    → get r c.verified_oids ≡ some v
    → get r (start_next c k latest).0.verified_oids ≡ some v
unfolding start_next
start_next-get_kept c k latest r v h = ground (arith, start_head-get_kept c k c.queue latest r v)

complete-head :
    (a : Option IntegrationItem) (c : IntegrationCoordinator) (success : Bool) (new : Option String)
    (r v : String)
    → c.active ≡ a
    → get r c.verified_oids ≡ some v
    → get r (complete c success new).0.verified_oids
      ≡ (if completed_in a success new r then new else some v)
unfolding complete complete_active
complete-head none c success new r v a h = rw (a, complete) h
complete-head (some x) c false new r v a h = rw (a, complete) h
complete-head (some x) c true none r v a h = rw (a, complete) h
complete-head (some x) c true (some oid) r v a h =
    rw (a, complete) (ground (arith, get-put x.run_id r oid c.verified_oids))

-- Once a run has a verified head, a call changes it only by completing, with success, the active
-- integration of that run, and then to the oid that the completion reports; every other call,
-- whether it returns or raises, leaves it.
pub head_advances :
    (c : IntegrationCoordinator) (op : Op) (r v : String)
    → latest_verified_oid c r ≡ some v
    → latest_verified_oid (step c op) r ≡ (if completes c op r then new_head op else some v)
unfolding step latest_verified_oid
head_advances c (op_enqueue item) r v h = unfold enqueue in ground arith
head_advances c (op_cancel_run k) r v h = unfold cancel_run in h
head_advances c (op_revoke_slice k s) r v h = unfold revoke_slice in ground arith
head_advances c (op_enqueue_repair item) r v h = unfold enqueue_repair enqueue in ground arith
head_advances c (op_mark_passed k s g) r v h = unfold mark_prospective_passed in h
head_advances c (op_register_head k oid) r v h = register-get_kept c k oid r v h
head_advances c (op_start_next k latest) r v h = start_next-get_kept c k latest r v h
head_advances c (op_complete success new) r v h = complete-head c.active c success new r v refl h
