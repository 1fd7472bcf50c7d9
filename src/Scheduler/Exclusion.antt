-- ===== src/Scheduler/Exclusion.antt =====
-- runtime/scheduler.py: slices in flight have disjoint write scopes.
use code_migrator.Base.{
  string_eq, nat_eq, list_eq, ℕ, String, ◌≡◌, refl, ap, sym, subst, ◌∙◌, ◌⊎◌, length, Bool, true,
  false, not, ◌&&◌, ◌||◌, Option, none, some, List, [], ◌∷◌, ◌++◌, arith, eq_iff, ◌==◌, inl, inr,
  Bool-cases, Option-cases, if◌then◌else◌, any, contains, get, put, get-put, get-pop, Text, All,
  All-In, All-append,
}
use code_migrator.Base.Texts.{list_beq_iff}
use code_migrator.Scheduler.Slices.{
  ResourcePool, ReadySlice, Identity, identity_eq, identity, FairScheduler, new, at, paths_overlap,
  scopes_overlap, identity_beq_iff,
}
use code_migrator.Scheduler.Methods.{
  find_slice, replace_slice, submit, submit_over, enqueue_slice, store_slice, same_facts,
  is_current, record_integrated, reset_outcome, mark_integrated, release, await_integration,
  restore_committed_facts, unreserve, unreserve_at, complete, generation_for,
}
use code_migrator.Scheduler.Next.{
  next, dispatch, search_from, Op, op_submit, op_complete, op_mark_integrated, op_release,
  op_await_integration, op_restore, op_next, step, run,
}
use code_migrator.Scheduler.Selection.{next-IsDispatch, next-dispatches, next-idle}

any-or {ℓ} :
    {A : Type ℓ} (p q : A → Bool) (xs : List A) → any (λ x. p x || q x) xs ≡ (any p xs || any q xs)
any-or p q [] = refl
any-or p q (x ∷ xs) = ground (arith, any-or p q xs)

any-ext {ℓ} :
    {A : Type ℓ} (p q : A → Bool) (xs : List A) → ((x : A) → p x ≡ q x) → any p xs ≡ any q xs
any-ext p q [] h = refl
any-ext p q (x ∷ xs) h = ground (arith, h x, any-ext p q xs h)

any-any_comm {ℓ} :
    {A : Type ℓ} (p q : A → A → Bool) (xs ys : List A)
    → ((x y : A) → p x y ≡ q y x)
    → any (λ x. any (p x) ys) xs ≡ any (λ y. any (q y) xs) ys
any-any_comm p q [] [] h = refl
any-any_comm p q [] (y ∷ ys) h = any-any_comm p q [] ys h
any-any_comm p q (x ∷ xs) ys h =
    ap (λ b. any (p x) ys || b) (any-any_comm p q xs ys h)
    ∙ ap (λ b. b || any (λ y. any (q y) xs) ys) (any-ext (p x) (λ y. q y x) ys (h x))
    ∙ sym (any-or (λ y. q y x) (λ y. any (q y) xs) ys)

-- Every queued slice stands in the queue of its run.
abbrev pub OwnsQueues : FairScheduler → Type 0
OwnsQueues s = (r : String) → All (λ item. item.run_id ≡ r) (at s.queues r)

-- Two reservations of one run overlap nowhere.
abbrev pub IsExclusive : FairScheduler → Type 0
IsExclusive s =
    (i j : Identity) (a b : List Text)
    → get i s.in_flight_scopes ≡ some a
    → get j s.in_flight_scopes ≡ some b
    → i.run_id ≡ j.run_id
    → (i == j) ≡ false
    → scopes_overlap a b ≡ false

pub record IsSafe (s : FairScheduler) : Type 0 where
  pub owned : OwnsQueues s
  pub exclusive : IsExclusive s

scopes_overlap_comm : (a b : List Text) → scopes_overlap a b ≡ scopes_overlap b a
unfolding scopes_overlap
scopes_overlap_comm a b =
    any-any_comm paths_overlap paths_overlap a b
      (λ x y. ground (arith, list_beq_iff x y, list_beq_iff y x))

-- A reservation that is dropped, or kept, is no new one.
pop-IsExclusive : (s : FairScheduler) (i : Identity) → IsExclusive s → IsExclusive (unreserve s i)
pop-IsExclusive s k h i j a b gi gj run apart =
    h i j a b (ground (arith, get-pop k i s.in_flight_scopes))
      (ground (arith, get-pop k j s.in_flight_scopes)) run apart

put-IsExclusive :
    (s : FairScheduler) (item : ReadySlice) (index : ℕ)
    → ((i : Identity) (b : List Text)
        → get i s.in_flight_scopes ≡ some b
        → i.run_id ≡ item.run_id
        → scopes_overlap item.write_scope b ≡ false)
    → IsExclusive s
    → IsExclusive (dispatch s item index)
put-IsExclusive s item index free h i j a b gi gj run apart = ground (
  arith,
  get-put (identity item) i item.write_scope s.in_flight_scopes,
  get-put (identity item) j item.write_scope s.in_flight_scopes,
  identity_beq_iff (identity item) i,
  identity_beq_iff (identity item) j,
  identity_beq_iff i j,
  scopes_overlap_comm a b,
  free i a,
  free j b,
  h i j a b,
)

-- What is queued and what is reserved stay as they are.
abbrev SameQueues : FairScheduler → FairScheduler → Type 0
SameQueues s t = t.queues ≡ s.queues

-- Nothing is reserved anew.
abbrev pub Reserves : FairScheduler → FairScheduler → Type 0
Reserves s t =
    (i : Identity) (a : List Text)
    → get i t.in_flight_scopes ≡ some a
    → get i s.in_flight_scopes ≡ some a

IsSafe-from : (s t : FairScheduler) → SameQueues s t → Reserves s t → IsSafe s → IsSafe t
IsSafe-from s t queues reserves h = record {
  owned = λ r. subst (λ q. All (λ item. item.run_id ≡ r) (at q r)) (sym queues) (h.owned r);
  exclusive = λ i j a b gi gj. h.exclusive i j a b (reserves i a gi) (reserves j b gj);
}

unreserve-Reserves : (s : FairScheduler) (k : Identity) → Reserves s (unreserve s k)
unreserve-Reserves s k i a g = ground (arith, get-pop k i s.in_flight_scopes)

unreserve_at-IsSafe :
    (s : FairScheduler) (r k : String) (g : Option ℕ) → IsSafe s → IsSafe (unreserve_at s r k g)
unreserve_at-IsSafe s r k none h = h
unreserve_at-IsSafe s r k (some g) h =
    let i : Identity = record { run_id = r; slice_id = k; generation = g } in
    IsSafe-from s (unreserve s i) refl (unreserve-Reserves s i) h

at-put :
    (k r : String) (v : List ReadySlice) (d : List (String × List ReadySlice))
    → at (put k v d) r ≡ (if k == r then v else at d r)
at-put k r v d = ground (arith, get-put k r v d)

put-OwnsQueues :
    (s : FairScheduler) (k : String) (v : List ReadySlice)
    → All (λ item. item.run_id ≡ k) v
    → OwnsQueues s
    → (r : String) → All (λ item. item.run_id ≡ r) (at (put k v s.queues) r)
put-OwnsQueues s k v hv h r = rw (at-put k r v s.queues) (choose (Bool-cases (k == r)))
  where
    choose :
        ((k == r) ≡ true) ⊎ ((k == r) ≡ false)
        → All (λ item. item.run_id ≡ r) (if k == r then v else at s.queues r)
    choose (inl e) = rw e (subst (λ x. All (λ item. item.run_id ≡ x) v) ((eq_iff k r).0 e) hv)
    choose (inr e) = rw e (h r)

replace_slice-owned :
    (item : ReadySlice) (xs : List ReadySlice)
    → All (λ x. x.run_id ≡ item.run_id) xs
    → All (λ x. x.run_id ≡ item.run_id) (replace_slice item xs)
unfolding replace_slice
replace_slice-owned item [] h = tt
replace_slice-owned item (x ∷ xs) h = elim (Bool-cases (x.slice_id == item.slice_id)) [
  | inl e ↦ rw e (refl, h.1)
  | inr e ↦ rw e (h.0, replace_slice-owned item xs h.1)
]

store-IsSafe : (s : FairScheduler) (item : ReadySlice) → IsSafe s → IsSafe (store_slice s item)
store-IsSafe s item h = record {
  owned =
      put-OwnsQueues s item.run_id (replace_slice item (at s.queues item.run_id))
        (replace_slice-owned item (at s.queues item.run_id) (h.owned item.run_id)) h.owned;
  exclusive = h.exclusive;
}

enqueue-IsSafe : (s : FairScheduler) (item : ReadySlice) → IsSafe s → IsSafe (enqueue_slice s item)
enqueue-IsSafe s item h = record {
  owned =
      put-OwnsQueues s item.run_id (at s.queues item.run_id ++ item ∷ [])
        (All-append (λ x. x.run_id ≡ item.run_id) (at s.queues item.run_id) (item ∷ [])
          (h.owned item.run_id) (refl, tt))
        h.owned;
  exclusive = h.exclusive;
}

submit_over-IsSafe :
    (s : FairScheduler) (item old : ReadySlice) → IsSafe s → IsSafe (submit_over s item old).0
unfolding submit_over
submit_over-IsSafe s item old h =
    let t = reset_outcome s item in
    let reset : IsSafe t = IsSafe-from s t refl (λ i a g. g) h in
    let stored = store-IsSafe s item h in
    let stored_anew = store-IsSafe t item reset in
    elim (Bool-cases (contains (identity old) s.in_flight && not (identity old == identity item))) [
      | inl e ↦ rw e h
      | inr e ↦
          rw e
            (elim (Bool-cases (not (same_facts old item) && contains (identity old) s.in_flight)) [
              | inl f ↦ rw f h
              | inr f ↦ rw f (elim (Bool-cases (old.generation == item.generation)) [
                | inl g ↦ rw g stored
                | inr g ↦ rw g stored_anew
              ])
            ])
    ]

submit-IsSafe : (s : FairScheduler) (item : ReadySlice) → IsSafe s → IsSafe (submit s item).0
unfolding submit
submit-IsSafe s item h = elim (Option-cases (find_slice item.slice_id (at s.queues item.run_id))) [
  | inl e ↦ rw (e, submit) (enqueue-IsSafe s item h)
  | inr (old, e) ↦ rw (e, submit) (submit_over-IsSafe s item old h)
]

mark_integrated-IsSafe :
    (s : FairScheduler) (r k : String) (g : Option ℕ) → IsSafe s → IsSafe (mark_integrated s r k g)
unfolding mark_integrated
mark_integrated-IsSafe s r k g h =
    let current = generation_for s r k none in
    let t : FairScheduler = if is_current g current then record_integrated s r k else s in
    unreserve_at-IsSafe t r k (elim g [ none ↦ current | some x ↦ some x ])
      (elim (Bool-cases (is_current g current)) [
        | inl e ↦ rw e (IsSafe-from s (record_integrated s r k) refl (λ i a x. x) h)
        | inr e ↦ rw e h
      ])

next-IsSafe :
    (s : FairScheduler) (active_scopes : List Text) (pools : List ResourcePool)
    (only : Option String)
    → IsSafe s
    → IsSafe (next s active_scopes pools only).0
next-IsSafe s active_scopes pools only h =
    elim (Option-cases (search_from s active_scopes pools only (length s.run_order) 0)) [
      | inl e ↦ subst IsSafe (sym (next-idle s active_scopes pools only e)) h
      | inr ((item, index), e) ↦
          let made = next-dispatches s active_scopes pools only item index e in
          let d = next-IsDispatch s active_scopes pools only item (ap (λ r. r.1) made) in
          let owner : item.run_id ≡ d.run_id =
            All-In (λ x. x.run_id ≡ d.run_id) d.queued (h.owned d.run_id) in
          subst IsSafe (sym (ap (λ r. r.0) made)) (record {
            owned = h.owned;
            exclusive =
                put-IsExclusive s item index (λ i b g same. d.apart_reserved i b g (same ∙ owner))
                  h.exclusive;
          })
    ]

-- Every call of a method keeps the reservations of a run apart.
step-IsSafe : (s : FairScheduler) (op : Op) → IsSafe s → IsSafe (step s op)
unfolding step
step-IsSafe s (op_submit item) h = submit-IsSafe s item h
step-IsSafe s (op_complete r k g) h = unfold complete in mark_integrated-IsSafe s r k g h
step-IsSafe s (op_mark_integrated r k g) h = mark_integrated-IsSafe s r k g h
step-IsSafe s (op_release r k g) h =
    unfold release in unreserve_at-IsSafe s r k (generation_for s r k g) h
step-IsSafe s (op_await_integration r k g) h =
    unfold await_integration in
    unreserve_at-IsSafe (record s { awaiting_integration = _ }) r k (some g)
      (IsSafe-from s (record s { awaiting_integration = _ }) refl (λ i a x. x) h)
step-IsSafe s (op_restore r integrated failed) h =
    unfold restore_committed_facts in
    IsSafe-from s (restore_committed_facts s r integrated failed) refl (λ i a x. x) h
step-IsSafe s (op_next active_scopes pools only) h = next-IsSafe s active_scopes pools only h

run_from-IsSafe : (s : FairScheduler) (ops : List Op) → IsSafe s → IsSafe (run s ops)
unfolding run
run_from-IsSafe s [] h = h
run_from-IsSafe s (op ∷ ops) h = run_from-IsSafe (step s op) ops (step-IsSafe s op h)

-- After any calls on a new scheduler, every queued slice stands in the queue of its run, and two
-- reservations of different slices or generations of one run hold write scopes that overlap
-- nowhere: no path of the one equals or lies below a path of the other.
pub run-IsSafe : (ops : List Op) → IsSafe (run new ops)
run-IsSafe ops = run_from-IsSafe new ops (record {
  owned = unfold get in λ r. tt;
  exclusive = unfold get in λ i j a b gi gj run apart. absurd (ground arith);
})
