-- ===== src/Integration/Invariant.antt =====
-- runtime/integration.py: what holds of the coordinator between two calls.
use code_migrator.Base.{
  string_eq, String, ◌≡◌, refl, ap, Bool, true, false, not, Option, none, some, List, [], ◌∷◌, ◌++◌,
  map, arith, eq_iff, if◌then◌else◌, keep, contains, contains-add, add, All, All-append, All-keep,
  ok, err, Bool-cases, Option-cases, get, inl, inr, ◌==◌, ℕ, sym, ◌∙◌,
}
use code_migrator.Integration.{
  IntegrationItem, IntegrationCoordinator, Op, empty, enqueue, in_run, in_slice, active_if,
  cancel_run, revoke_slice, enqueue_repair, mark_item, mark_prospective_passed,
  register_verified_head, start_from, start_head, start_next, complete, complete_active, popleft,
  activate, start_after, Outcome, step, run, op_enqueue, op_cancel_run, op_revoke_slice,
  op_enqueue_repair, op_mark_passed, op_register_head, op_start_next, op_complete,
}

-- The active item is the head of the queue, and its prospective checks have passed.
abbrev pub HeadsQueue : Option IntegrationItem → List IntegrationItem → Type 0
HeadsQueue none queue = Unit
HeadsQueue (some item) [] = ⊥
HeadsQueue (some item) (first ∷ rest) = (item ≡ first) × (item.prospective_checks_passed ≡ true)

abbrev pub NotCancelled : List String → IntegrationItem → Type 0
NotCancelled runs item = contains item.run_id runs ≡ false

pub record IsConsistent (c : IntegrationCoordinator) : Type 0 where
  pub heads : HeadsQueue c.active c.queue
  pub live : All (NotCancelled c.cancelled_runs) c.queue

HeadsQueue-append :
    (a : Option IntegrationItem) (xs ys : List IntegrationItem)
    → HeadsQueue a xs
    → HeadsQueue a (xs ++ ys)
HeadsQueue-append none xs ys h = tt
HeadsQueue-append (some a) [] ys h = absurd h
HeadsQueue-append (some a) (x ∷ xs) ys h = h

HeadsQueue-keep :
    (p : IntegrationItem → Bool) (a : Option IntegrationItem) (xs : List IntegrationItem)
    → active_if p a ≡ false
    → HeadsQueue a xs
    → HeadsQueue a (keep (λ item. not (p item)) xs)
HeadsQueue-keep p none xs n h = tt
HeadsQueue-keep p (some a) [] n h = absurd h
HeadsQueue-keep p (some a) (x ∷ xs) n h = let e : p x ≡ false = ap p (sym h.0) ∙ n in rw e h

mark_item_passed :
    (r s : String) (g : Option ℕ) (item : IntegrationItem)
    → item.prospective_checks_passed ≡ true
    → mark_item r s g item ≡ item
mark_item_passed r s g item h = ground arith

enqueue-IsConsistent :
    (c : IntegrationCoordinator) (item : IntegrationItem)
    → IsConsistent c
    → IsConsistent (enqueue c item).0
unfolding enqueue
enqueue-IsConsistent c item h = elim (Bool-cases (contains item.run_id c.cancelled_runs)) [
  | inl e ↦ rw e h
  | inr e ↦ rw e (record {
    heads = HeadsQueue-append c.active c.queue (item ∷ []) h.heads;
    live = All-append (NotCancelled c.cancelled_runs) c.queue (item ∷ []) h.live (e, tt);
  })
]

live-cancel :
    (r : String) (runs : List String) (xs : List IntegrationItem)
    → All (NotCancelled runs) xs
    → All (NotCancelled (add r runs)) (keep (λ item. not (in_run r item)) xs)
live-cancel r runs [] h = tt
live-cancel r runs (x ∷ xs) h = elim (Bool-cases (x.run_id == r)) [
  | inl e ↦ rw e (live-cancel r runs xs h.1)
  | inr e ↦ rw e (
    ground (arith, contains-add r x.run_id runs, h.0, eq_iff r x.run_id, eq_iff x.run_id r),
    live-cancel r runs xs h.1,
  )
]

HeadsQueue-cancel :
    (p : IntegrationItem → Bool) (a : Option IntegrationItem) (xs : List IntegrationItem)
    → HeadsQueue a xs
    → HeadsQueue (if active_if p a then none else a) (keep (λ item. not (p item)) xs)
HeadsQueue-cancel p a xs h = elim (Bool-cases (active_if p a)) [
  | inl e ↦ rw e tt
  | inr e ↦ rw e (HeadsQueue-keep p a xs e h)
]

cancel_run-IsConsistent :
    (c : IntegrationCoordinator) (r : String) → IsConsistent c → IsConsistent (cancel_run c r)
unfolding cancel_run
cancel_run-IsConsistent c r h = record {
  heads = HeadsQueue-cancel (in_run r) c.active c.queue h.heads;
  live = live-cancel r c.cancelled_runs c.queue h.live;
}

revoke_slice-IsConsistent :
    (c : IntegrationCoordinator) (r s : String)
    → IsConsistent c
    → IsConsistent (revoke_slice c r s).0
unfolding revoke_slice
revoke_slice-IsConsistent c r s h = elim (Bool-cases (active_if (in_slice r s) c.active)) [
  | inl e ↦ rw e h
  | inr e ↦ rw e (record {
    heads = HeadsQueue-keep (in_slice r s) c.active c.queue e h.heads;
    live =
        All-keep (NotCancelled c.cancelled_runs) (λ item. not (in_slice r s item)) c.queue h.live;
  })
]

enqueue_repair-IsConsistent :
    (c : IntegrationCoordinator) (item : IntegrationItem)
    → IsConsistent c
    → IsConsistent (enqueue_repair c item).0
unfolding enqueue_repair
enqueue_repair-IsConsistent c item h = ground (arith, enqueue-IsConsistent c item h)

HeadsQueue-mark :
    (r s : String) (g : Option ℕ) (a : Option IntegrationItem) (xs : List IntegrationItem)
    → HeadsQueue a xs
    → HeadsQueue a (map (mark_item r s g) xs)
HeadsQueue-mark r s g none xs h = tt
HeadsQueue-mark r s g (some a) [] h = absurd h
HeadsQueue-mark r s g (some a) (x ∷ xs) h = (
  h.0
      ∙ sym (
          mark_item_passed r s g x
            (ap (λ (i : IntegrationItem). i.prospective_checks_passed) (sym h.0) ∙ h.1)),
  h.1,
)

run_id-mark_item :
    (r s : String) (g : Option ℕ) (x : IntegrationItem) → (mark_item r s g x).run_id ≡ x.run_id
run_id-mark_item r s g x = ground arith

live-mark :
    (runs : List String) (r s : String) (g : Option ℕ) (xs : List IntegrationItem)
    → All (NotCancelled runs) xs
    → All (NotCancelled runs) (map (mark_item r s g) xs)
live-mark runs r s g [] h = tt
live-mark runs r s g (x ∷ xs) h =
    (ap (λ k. contains k runs) (run_id-mark_item r s g x) ∙ h.0, live-mark runs r s g xs h.1)

mark-IsConsistent :
    (c : IntegrationCoordinator) (r s : String) (g : Option ℕ)
    → IsConsistent c
    → IsConsistent (mark_prospective_passed c r s g)
unfolding mark_prospective_passed
mark-IsConsistent c r s g h = record {
  heads = HeadsQueue-mark r s g c.active c.queue h.heads;
  live = live-mark c.cancelled_runs r s g c.queue h.live;
}

-- Only the table of heads changes.
abbrev pub SameQueue : IntegrationCoordinator → IntegrationCoordinator → Type 0
SameQueue c d = (d.queue ≡ c.queue) × (d.active ≡ c.active) × (d.cancelled_runs ≡ c.cancelled_runs)

SameQueue-IsConsistent :
    (c d : IntegrationCoordinator) → SameQueue c d → IsConsistent c → IsConsistent d
SameQueue-IsConsistent c d h v = record {
  heads = rw (h.0, h.1) v.heads;
  live = rw (h.0, h.2) v.live;
}

pub register-SameQueue :
    (c : IntegrationCoordinator) (r oid : String) → SameQueue c (register_verified_head c r oid).0
unfolding register_verified_head
register-SameQueue c r oid = ground arith

activate-IsConsistent :
    (c : IntegrationCoordinator) (x : IntegrationItem) (xs : List IntegrationItem) (oid : String)
    → c.queue ≡ x ∷ xs
    → x.prospective_checks_passed ≡ true
    → IsConsistent c
    → IsConsistent (activate c x oid).0
activate-IsConsistent c x xs oid q passed h = record { heads = rw q (refl, passed); live = h.live }

start_from-IsConsistent :
    (c : IntegrationCoordinator) (r : String) (x : IntegrationItem) (xs : List IntegrationItem)
    (base latest : Option String)
    → c.queue ≡ x ∷ xs
    → x.prospective_checks_passed ≡ true
    → IsConsistent c
    → IsConsistent (start_from c r x base latest).0
unfolding start_from
start_from-IsConsistent c r x xs (some oid) latest q passed h =
    activate-IsConsistent c x xs oid q passed h
start_from-IsConsistent c r x xs none none q passed h = h
start_from-IsConsistent c r x xs none (some latest) q passed h =
    let same = register-SameQueue c r latest in
    let v : IsConsistent (register_verified_head c r latest).0 =
      SameQueue-IsConsistent c (register_verified_head c r latest).0 same h in
    registered (register_verified_head c r latest) (same.0 ∙ q) v
  where
    registered :
        (o : Outcome (Unit {0}))
        → o.0.queue ≡ x ∷ xs
        → IsConsistent o.0
        → IsConsistent (start_after o x latest).0
    registered (c', ok u) e v = activate-IsConsistent c' x xs latest e passed v
    registered (c', err e') e v = v

start_head-IsConsistent :
    (c : IntegrationCoordinator) (r : String) (xs : List IntegrationItem) (latest : Option String)
    → c.queue ≡ xs
    → IsConsistent c
    → IsConsistent (start_head c r xs latest).0
unfolding start_head
start_head-IsConsistent c r [] latest q h = h
start_head-IsConsistent c r (x ∷ xs) latest q h =
    ground (arith, start_from-IsConsistent c r x xs (get r c.verified_oids) latest q)

start_next-IsConsistent :
    (c : IntegrationCoordinator) (r : String) (latest : Option String)
    → IsConsistent c
    → IsConsistent (start_next c r latest).0
unfolding start_next
start_next-IsConsistent c r latest h =
    ground (arith, start_head-IsConsistent c r c.queue latest refl h)

live-popleft :
    (runs : List String) (xs : List IntegrationItem)
    → All (NotCancelled runs) xs
    → All (NotCancelled runs) (popleft xs)
live-popleft runs [] h = tt
live-popleft runs (x ∷ xs) h = h.1

complete_active-IsConsistent :
    (c : IntegrationCoordinator) (x : IntegrationItem) (success : Bool) (new : Option String)
    → IsConsistent c
    → IsConsistent (complete_active c x success new).0
unfolding complete_active
complete_active-IsConsistent c x false new h = record { heads = tt; live = h.live }
complete_active-IsConsistent c x true none h = h
complete_active-IsConsistent c x true (some oid) h = record {
  heads = tt;
  live = live-popleft c.cancelled_runs c.queue h.live;
}

complete-IsConsistent :
    (c : IntegrationCoordinator) (success : Bool) (new : Option String)
    → IsConsistent c
    → IsConsistent (complete c success new).0
unfolding complete
complete-IsConsistent c success new h = elim (Option-cases c.active) [
  | inl e ↦ rw (e, complete) h
  | inr (x, e) ↦ rw (e, complete) (complete_active-IsConsistent c x success new h)
]

-- Every call, whether it returns or raises, keeps the invariant: an active item is the queue's
-- head with its prospective checks passed, and no queued item belongs to a cancelled run.
pub step-IsConsistent :
    (c : IntegrationCoordinator) (op : Op) → IsConsistent c → IsConsistent (step c op)
unfolding step
step-IsConsistent c (op_enqueue item) h = enqueue-IsConsistent c item h
step-IsConsistent c (op_cancel_run r) h = cancel_run-IsConsistent c r h
step-IsConsistent c (op_revoke_slice r s) h = revoke_slice-IsConsistent c r s h
step-IsConsistent c (op_enqueue_repair item) h = enqueue_repair-IsConsistent c item h
step-IsConsistent c (op_mark_passed r s g) h = mark-IsConsistent c r s g h
step-IsConsistent c (op_register_head r oid) h =
    SameQueue-IsConsistent c (register_verified_head c r oid).0 (register-SameQueue c r oid) h
step-IsConsistent c (op_start_next r latest) h = start_next-IsConsistent c r latest h
step-IsConsistent c (op_complete success new) h = complete-IsConsistent c success new h

pub run_from-IsConsistent :
    (c : IntegrationCoordinator) (ops : List Op) → IsConsistent c → IsConsistent (run c ops)
unfolding run
run_from-IsConsistent c [] h = h
run_from-IsConsistent c (op ∷ ops) h =
    run_from-IsConsistent (step c op) ops (step-IsConsistent c op h)

-- After any sequence of calls on a new coordinator, whether they return or raise, an active item
-- is the head of the queue and has passed its prospective checks, and no queued item belongs to
-- a cancelled run.
pub run-IsConsistent : (ops : List Op) → IsConsistent (run empty ops)
run-IsConsistent ops = run_from-IsConsistent empty ops (record { heads = tt; live = tt })
