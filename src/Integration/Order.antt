-- ===== src/Integration/Order.antt =====
-- runtime/integration.py: the order in which integrations complete.
use mathlib.Core.List.{map-append, append-nil, append_assoc, Sublist}
use mathlib.Core.List.Sublist
use code_migrator.Base.{
  string_eq, String, ◌≡◌, refl, ap, sym, ◌∙◌, Bool, true, false, not, Option, none, some, List, [],
  ◌∷◌, ◌++◌, map, arith, keep, contains, Bool-cases, inl, inr, ℕ, get, any, Result, ok, err,
}
use code_migrator.Integration.{
  IntegrationItem, IntegrationCoordinator, active_if, IntegrationError, Op, empty, enqueue, in_run,
  in_slice, cancel_run, revoke_slice, enqueue_repair, mark_item, mark_prospective_passed,
  register_verified_head, start_from, start_head, start_next, start_after, complete,
  complete_active, step, run, op_enqueue, op_cancel_run, op_revoke_slice, op_enqueue_repair,
  op_mark_passed, op_register_head, op_start_next, op_complete, Outcome,
}
use code_migrator.Integration.Invariant.{
  IsConsistent, HeadsQueue, step-IsConsistent, register-SameQueue,
}

-- An item without the flag that `mark_prospective_passed` sets.
abbrev pub strip : IntegrationItem → IntegrationItem
strip item = record item { prospective_checks_passed = false }

-- The item that a call puts into the queue.
abbrev added : IntegrationItem → Bool → List IntegrationItem
added item true = item ∷ []
added item false = []

abbrev added_by : IntegrationItem → Result IntegrationError Bool → List IntegrationItem
added_by item (ok accepted) = added item accepted
added_by item (err e) = []

accepted : IntegrationCoordinator → Op → List IntegrationItem
accepted c (op_enqueue item) = added item (enqueue c item).1
accepted c (op_enqueue_repair item) = added_by item (enqueue_repair c item).1
accepted c _ = []

-- The item whose integration a call completes with success: its new verified head is recorded.
abbrev done_item : Option IntegrationItem → Bool → Option String → List IntegrationItem
done_item (some item) true (some oid) = item ∷ []
done_item _ _ _ = []

done : IntegrationCoordinator → Op → List IntegrationItem
done c (op_complete success new) = done_item c.active success new
done c _ = []

-- The accepted items and the successes of a sequence of calls, in the order of the calls.
pub all_accepted : IntegrationCoordinator → List Op → List IntegrationItem
unfolding accepted
all_accepted c [] = []
all_accepted c (op ∷ ops) = accepted c op ++ all_accepted (step c op) ops

pub all_done : IntegrationCoordinator → List Op → List IntegrationItem
unfolding done
all_done c [] = []
all_done c (op ∷ ops) = done c op ++ all_done (step c op) ops

-- The calls that take items out of the queue with no integration.
abbrev pub is_dropping : Op → Bool
is_dropping (op_cancel_run run_id) = true
is_dropping (op_revoke_slice run_id slice_id) = true
is_dropping _ = false

strip-mark_item :
    (r s : String) (g : Option ℕ) (item : IntegrationItem)
    → strip (mark_item r s g item) ≡ strip item
strip-mark_item r s g item = ground arith

strip-mark :
    (r s : String) (g : Option ℕ) (xs : List IntegrationItem)
    → map strip (map (mark_item r s g) xs) ≡ map strip xs
strip-mark r s g [] = refl
strip-mark r s g (x ∷ xs) = cc (strip-mark_item r s g x, strip-mark r s g xs)

queue-start_after :
    (o : Outcome (Unit {0})) (x : IntegrationItem) (oid : String)
    → (start_after o x oid).0.queue ≡ o.0.queue
unfolding start_after
queue-start_after (c, ok u) x oid = refl
queue-start_after (c, err e) x oid = refl

queue-start_from :
    (c : IntegrationCoordinator) (r : String) (x : IntegrationItem) (base latest : Option String)
    → (start_from c r x base latest).0.queue ≡ c.queue
unfolding start_from
queue-start_from c r x (some oid) latest = refl
queue-start_from c r x none none = refl
queue-start_from c r x none (some latest) =
    queue-start_after (register_verified_head c r latest) x latest
    ∙ (register-SameQueue c r latest).0

queue-start_head :
    (c : IntegrationCoordinator) (r : String) (xs : List IntegrationItem) (latest : Option String)
    → (start_head c r xs latest).0.queue ≡ c.queue
unfolding start_head
queue-start_head c r [] latest = refl
queue-start_head c r (x ∷ xs) latest =
    ground (arith, queue-start_from c r x (get r c.verified_oids) latest)

queue-start_next :
    (c : IntegrationCoordinator) (r : String) (latest : Option String)
    → (start_next c r latest).0.queue ≡ c.queue
unfolding start_next
queue-start_next c r latest = ground (arith, queue-start_head c r c.queue latest)

queue-enqueue :
    (c : IntegrationCoordinator) (x : IntegrationItem)
    → (enqueue c x).0.queue ≡ c.queue ++ added x (enqueue c x).1
unfolding enqueue
queue-enqueue c x = elim (Bool-cases (contains x.run_id c.cancelled_runs)) [
  | inl e ↦ rw e (sym (append-nil c.queue))
  | inr e ↦ rw e
]

queue-enqueue_repair :
    (c : IntegrationCoordinator) (x : IntegrationItem)
    → (enqueue_repair c x).0.queue ≡ c.queue ++ added_by x (enqueue_repair c x).1
unfolding enqueue_repair
queue-enqueue_repair c x = ground (arith, queue-enqueue c x, append-nil c.queue)

-- A completion takes the active item, the queue's head, out of the queue.
complete_queue :
    (a : Option IntegrationItem) (xs : List IntegrationItem) (c : IntegrationCoordinator)
    (success : Bool) (new : Option String)
    → c.active ≡ a
    → c.queue ≡ xs
    → HeadsQueue a xs
    → done_item a success new ++ (complete c success new).0.queue ≡ xs
unfolding complete complete_active
complete_queue none xs c success new a q h = rw (a, complete) q
complete_queue (some x) xs c false new a q h = rw (a, complete) q
complete_queue (some x) xs c true none a q h = rw (a, complete) q
complete_queue (some x) [] c true (some oid) a q h = absurd h
complete_queue (some x) (y ∷ xs) c true (some oid) a q h =
    rw (a, complete) (rw q (ap (λ z. z ∷ xs) h.0))

-- One call that drops nothing: what it completes and leaves is what was queued and accepted.
step_exact :
    (c : IntegrationCoordinator) (op : Op)
    → is_dropping op ≡ false
    → IsConsistent c
    → map strip (done c op ++ (step c op).queue) ≡ map strip (c.queue ++ accepted c op)
unfolding step done accepted
step_exact c (op_enqueue item) d h = ap (map strip) (queue-enqueue c item)
step_exact c (op_enqueue_repair item) d h = ap (map strip) (queue-enqueue_repair c item)
step_exact c (op_mark_passed r s g) d h =
    unfold mark_prospective_passed in
    strip-mark r s g c.queue ∙ ap (map strip) (sym (append-nil c.queue))
step_exact c (op_register_head r oid) d h =
    ap (map strip) ((register-SameQueue c r oid).0 ∙ sym (append-nil c.queue))
step_exact c (op_start_next r latest) d h =
    ap (map strip) (queue-start_next c r latest ∙ sym (append-nil c.queue))
step_exact c (op_complete success new) d h =
    ap (map strip)
      (complete_queue c.active c.queue c success new refl refl h.heads ∙ sym (append-nil c.queue))
step_exact c (op_cancel_run r) d h = cc
step_exact c (op_revoke_slice r s) d h = cc

keep-Sublist :
    (p : IntegrationItem → Bool) (xs : List IntegrationItem)
    → Sublist (map strip (keep p xs)) (map strip xs)
keep-Sublist p [] = Sublist.refl []
keep-Sublist p (x ∷ xs) = elim (Bool-cases (p x)) [
  | inl e ↦ rw e (Sublist.cons-cons (strip x) (keep-Sublist p xs))
  | inr e ↦ rw e (Sublist.cons (strip x) (keep-Sublist p xs))
]

revoke-Sublist :
    (c : IntegrationCoordinator) (r s : String)
    → Sublist (map strip (revoke_slice c r s).0.queue) (map strip c.queue)
unfolding revoke_slice
revoke-Sublist c r s = elim (Bool-cases (active_if (in_slice r s) c.active)) [
  | inl e ↦ rw e (Sublist.refl _)
  | inr e ↦ rw e (keep-Sublist (λ item. not (in_slice r s item)) c.queue)
]

-- One call, whatever it is: what it completes and leaves stands in the order of the queue.
step_ordered :
    (c : IntegrationCoordinator) (op : Op)
    → IsConsistent c
    → Sublist (map strip (done c op ++ (step c op).queue)) (map strip (c.queue ++ accepted c op))
step_ordered c (op_cancel_run r) h =
    unfold step done accepted cancel_run in
    rw append-nil (keep-Sublist (λ item. not (in_run r item)) c.queue)
step_ordered c (op_revoke_slice r s) h =
    unfold step done accepted in rw append-nil (revoke-Sublist c r s)
step_ordered c op h = rw (step_exact c op refl h) (Sublist.refl _)

map-split :
    (a b f : List IntegrationItem) → map strip (a ++ (b ++ f)) ≡ map strip (a ++ b) ++ map strip f
map-split a b f = ap (map strip) (sym (append_assoc a b f)) ∙ map-append strip (a ++ b) f

-- The equation of one call, followed by those of the rest.
chain_exact :
    (a b d e f : List IntegrationItem)
    → map strip (a ++ b) ≡ map strip (d ++ e)
    → map strip (a ++ (b ++ f)) ≡ map strip (d ++ (e ++ f))
chain_exact a b d e f h = map-split a b f ∙ ap (λ l. l ++ map strip f) h ∙ sym (map-split d e f)

chain_ordered :
    (a b d e f : List IntegrationItem)
    → Sublist (map strip (a ++ b)) (map strip (d ++ e))
    → Sublist (map strip (a ++ (b ++ f))) (map strip (d ++ (e ++ f)))
chain_ordered a b d e f h =
    rw (map-split a b f, map-split d e f) (Sublist.append h (Sublist.refl (map strip f)))

-- The same items in front of both sides.
front_ordered :
    (a b d : List IntegrationItem)
    → Sublist (map strip b) (map strip d)
    → Sublist (map strip (a ++ b)) (map strip (a ++ d))
front_ordered a b d h =
    rw (map-append strip a b, map-append strip a d) (Sublist.append (Sublist.refl (map strip a)) h)

run_exact :
    (c : IntegrationCoordinator) (ops : List Op)
    → any is_dropping ops ≡ false
    → IsConsistent c
    → map strip (all_done c ops ++ (run c ops).queue) ≡ map strip (c.queue ++ all_accepted c ops)
unfolding run all_done all_accepted
run_exact c [] d h = ap (map strip) (sym (append-nil c.queue))
run_exact c (op ∷ ops) d h =
    let e : is_dropping op ≡ false = ground arith in
    let rest = run_exact (step c op) ops (ground arith) (step-IsConsistent c op h) in
    rw (append_assoc (done c op) (all_done (step c op) ops) (run (step c op) ops).queue) (
      map-append strip (done c op) (all_done (step c op) ops ++ (run (step c op) ops).queue)
      ∙ (ap (λ l. map strip (done c op) ++ l) rest
          ∙ sym (map-append strip (done c op) ((step c op).queue ++ all_accepted (step c op) ops))
          ∙ chain_exact (done c op) (step c op).queue c.queue (accepted c op)
              (all_accepted (step c op) ops) (step_exact c op e h)))

run_ordered :
    (c : IntegrationCoordinator) (ops : List Op)
    → IsConsistent c
    → Sublist
        (map strip (all_done c ops ++ (run c ops).queue))
        (map strip (c.queue ++ all_accepted c ops))
unfolding run all_done all_accepted
run_ordered c [] h = rw append-nil (Sublist.refl _)
run_ordered c (op ∷ ops) h =
    let rest = run_ordered (step c op) ops (step-IsConsistent c op h) in
    rw (append_assoc (done c op) (all_done (step c op) ops) (run (step c op) ops).queue) (
      Sublist.trans
        (front_ordered (done c op) (all_done (step c op) ops ++ (run (step c op) ops).queue)
          ((step c op).queue ++ all_accepted (step c op) ops) rest)
        (chain_ordered (done c op) (step c op).queue c.queue (accepted c op)
          (all_accepted (step c op) ops) (step_ordered c op h)))

-- For any sequence of calls on a new coordinator, the successful completions followed by what is
-- still queued are, up to the prospective flag, a sublist of the accepted items in the order of
-- their submission: no integration overtakes another.
pub completions_in_order :
    (ops : List Op)
    → Sublist
        (map strip (all_done empty ops ++ (run empty ops).queue))
        (map strip (all_accepted empty ops))
completions_in_order ops = run_ordered empty ops (record { heads = tt; live = tt })

-- Where no call of the sequence cancels a run or revokes a slice, the successful completions
-- followed by what is still queued are, up to the prospective flag, exactly the accepted items in
-- the order of their submission: none is lost, repeated or reordered.
pub completions_exact :
    (ops : List Op)
    → any is_dropping ops ≡ false
    → map strip (all_done empty ops ++ (run empty ops).queue) ≡ map strip (all_accepted empty ops)
completions_exact ops d = run_exact empty ops d (record { heads = tt; live = tt })
