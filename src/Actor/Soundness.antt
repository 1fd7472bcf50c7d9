-- ===== src/Actor/Soundness.antt =====
-- runtime/actor.py: what holds of a run's state whatever messages its actor handled.
use code_migrator.Base.{
  string_eq, nat_eq, pair_eq, ℕ, ◌≤◌, String, ◌≡◌, refl, ap, subst, Bool, true, false, not, ◌&&◌,
  ◌||◌, List, [], ◌∷◌, ◌++◌, ◌==◌, arith, eq_iff, ◌⊎◌, inl, inr, any, All, keep, get, put, get_or,
  if_cases, ltb, leb, ltb→lt,
}
use code_migrator.Actor.Status.{
  RunStatus, planning, executing, verifying, reporting, failed, cancelled, is_terminal,
}
use code_migrator.Actor.State.{RunState, ActiveDispatch, dispatch_eq}
use code_migrator.Actor.Inputs.{
  SessionPayload, cancel_next, segment_next, is_eligible, sorted_counts, insert_count,
  max_continuations_per_generation,
}
use code_migrator.Actor.Dispatches.{has_key, start_next, finish_next}
use code_migrator.Actor.Budget.{usage_next, exhausted_next}
use code_migrator.Actor.Judgement.{RecoveryPlan, recovery_next}
use code_migrator.Actor.Workflow.{accepted_next, report_completed, report_partial}
use code_migrator.Actor.Rounds.{round_next}
use code_migrator.Actor.Transition.{
  Transition, records, bumps, cancels, advises, stops_segment, starts, finishes, spends, exhausts,
  recovers, accepts, ends_round, verifies, reports,
}

-- A generation has used at most three continuations.
abbrev pub IsBounded : ℕ × ℕ → Type 0
IsBounded (generation, count) = count ≤ 3

-- No two dispatches have a subject and a check in common.
abbrev pub DistinctKeys : String → List ActiveDispatch → Type 0
DistinctKeys run_id [] = Unit
DistinctKeys run_id (d ∷ ds) = (any (has_key d run_id) ds ≡ false) × DistinctKeys run_id ds

abbrev pub is_stopped : RunStatus → Bool
is_stopped cancelled = true
is_stopped failed = true
is_stopped _ = false

-- A cancelled or failed run makes no new calls and has no active dispatch.
abbrev pub Rests : RunState → Type 0
Rests s = (is_stopped s.status ≡ false) ⊎ (s.new_calls_enabled ≡ false) × (s.active_dispatches ≡ [])

pub record IsSound (s : RunState) : Type 0 where
  pub counts : All IsBounded s.continuation_counts
  pub keys : DistinctKeys s.run_id s.active_dispatches
  pub rests : Rests s

-- Continuations.
bounded_get : (g : ℕ) (counts : List (ℕ × ℕ)) → All IsBounded counts → get_or 0 (get g counts) ≤ 3
unfolding get
bounded_get g [] h = omega arith
bounded_get g ((k, n) ∷ counts) h = ground (arith, bounded_get g counts h.1, h.0)

IsBounded-put :
    (g n : ℕ) (counts : List (ℕ × ℕ))
    → n ≤ 3
    → All IsBounded counts
    → All IsBounded (put g n counts)
unfolding put
IsBounded-put g n [] le h = (le, tt)
IsBounded-put g n ((k, m) ∷ counts) le h =
    if_cases (All IsBounded) (k == g) (λ e. (le, h.1)) (λ e. (h.0, IsBounded-put g n counts le h.1))

IsBounded-insert :
    (p : ℕ × ℕ) (counts : List (ℕ × ℕ))
    → IsBounded p
    → All IsBounded counts
    → All IsBounded (insert_count p counts)
IsBounded-insert p [] le h = (le, tt)
IsBounded-insert (g, n) ((k, m) ∷ counts) le h =
    if_cases (All IsBounded) (ltb g k || (g == k && leb n m)) (λ e. (le, h))
      (λ e. (h.0, IsBounded-insert (g, n) counts le h.1))

IsBounded-sorted :
    (counts : List (ℕ × ℕ)) → All IsBounded counts → All IsBounded (sorted_counts counts)
unfolding sorted_counts
IsBounded-sorted [] h = tt
IsBounded-sorted (p ∷ counts) h =
    IsBounded-insert p (sorted_counts counts) h.0 (IsBounded-sorted counts h.1)

segment-counts :
    (s : RunState) (payload : SessionPayload) (g : ℕ)
    → All IsBounded s.continuation_counts
    → All IsBounded (segment_next s payload g).continuation_counts
unfolding segment_next is_eligible
segment-counts s payload g h =
    let current = get_or 0 (get g s.continuation_counts) in
    let low : current ≤ 3 = bounded_get g s.continuation_counts h in
    IsBounded-sorted _ (
      IsBounded-put g _ s.continuation_counts
        (if_cases (λ n. n ≤ 3)
          (s.new_calls_enabled
            && (payload.material_progress || payload.checkpoint_diff)
            && ltb current max_continuations_per_generation)
          (λ e. ground (arith, ltb→lt current 3)) (λ e. low))
        h)

segment-IsSound :
    (s : RunState) (payload : SessionPayload) (g : ℕ)
    → IsSound s
    → IsSound (segment_next s payload g)
unfolding segment_next
segment-IsSound s payload g h = record {
  counts = segment-counts s payload g h.counts;
  keys = h.keys;
  rests = h.rests;
}

-- Dispatches.
has_key_sym : (d e : ActiveDispatch) (r : String) → has_key d r e ≡ false → has_key e r d ≡ false
has_key_sym d e r h = ground (
  arith,
  eq_iff d.subject e.subject,
  eq_iff e.subject d.subject,
  eq_iff d.check_id e.check_id,
  eq_iff e.check_id d.check_id,
  eq_iff r r,
)

any-append :
    (p : ActiveDispatch → Bool) (ds : List ActiveDispatch) (d : ActiveDispatch)
    → any p ds ≡ false
    → p d ≡ false
    → any p (ds ++ d ∷ []) ≡ false
any-append p [] d h k = ground arith
any-append p (x ∷ ds) d h k = ground (arith, any-append p ds d)

DistinctKeys-append :
    (r : String) (ds : List ActiveDispatch) (d : ActiveDispatch)
    → DistinctKeys r ds
    → any (has_key d r) ds ≡ false
    → DistinctKeys r (ds ++ d ∷ [])
DistinctKeys-append r [] d h k = (refl, tt)
DistinctKeys-append r (x ∷ ds) d h k = (
  any-append (has_key x r) ds d h.0 (has_key_sym d x r (ground arith)),
  DistinctKeys-append r ds d h.1 (ground arith),
)

any-keep :
    (p q : ActiveDispatch → Bool) (ds : List ActiveDispatch)
    → any p ds ≡ false
    → any p (keep q ds) ≡ false
any-keep p q [] h = refl
any-keep p q (x ∷ ds) h = ground (arith, any-keep p q ds)

DistinctKeys-keep :
    (r : String) (q : ActiveDispatch → Bool) (ds : List ActiveDispatch)
    → DistinctKeys r ds
    → DistinctKeys r (keep q ds)
DistinctKeys-keep r q [] h = tt
DistinctKeys-keep r q (x ∷ ds) h =
    if_cases (DistinctKeys r) (q x)
      (λ e. (any-keep (has_key x r) q ds h.0, DistinctKeys-keep r q ds h.1))
      (λ e. DistinctKeys-keep r q ds h.1)

-- With fewer dispatches a stopped run has none either.
Rests-finish : (s : RunState) (d : ActiveDispatch) → Rests s → Rests (finish_next s d)
unfolding finish_next
Rests-finish s d (inl e) = inl e
Rests-finish s d (inr (off, e)) = inr (off, ap (keep (λ item. not (item == d))) e)

Rests-recovery : (s : RunState) (plan : RecoveryPlan) → Rests s → Rests (recovery_next s plan)
unfolding recovery_next
Rests-recovery s plan (inl e) = inl e
Rests-recovery s plan (inr (off, e)) = inr (off, refl)

terminal_as : (x y : RunStatus) → y ≡ x → is_terminal y ≡ true → is_terminal x ≡ true
terminal_as x y e h = subst (λ z. is_terminal z ≡ true) e h

-- The status of a terminal state stays.
pub terminal_stays :
    {s t : RunState} → Transition s t → is_terminal s.status ≡ true → t.status ≡ s.status
unfolding segment_next finish_next usage_next recovery_next
terminal_stays records h = refl
terminal_stays bumps h = refl
terminal_stays (cancels live) h = absurd (ground arith)
terminal_stays (advises adopted pending) h = refl
terminal_stays (stops_segment payload g live lt) h = refl
terminal_stays (starts d live calls asked fresh) h = absurd (ground arith)
terminal_stays (finishes d) h = refl
terminal_stays (spends usage warning live) h = refl
terminal_stays (exhausts usage warning live) h = absurd (ground arith)
terminal_stays (recovers plan) h = refl
terminal_stays {s = s} (accepts hash e) h =
    let k = terminal_as planning s.status e h in absurd (ground arith)
terminal_stays {s = s} (ends_round complete facts e frozen) h =
    let k = terminal_as executing s.status e h in absurd (ground arith)
terminal_stays {s = s} (verifies e) h =
    let k = terminal_as verifying s.status e h in absurd (ground arith)
terminal_stays {s = s} (reports status e) h =
    let k = terminal_as reporting s.status e h in absurd (ground arith)

-- A state that follows is sound.
pub Transition-IsSound : {s t : RunState} → Transition s t → IsSound s → IsSound t
unfolding cancel_next start_next finish_next usage_next exhausted_next recovery_next accepted_next
    round_next
Transition-IsSound records h = h
Transition-IsSound bumps h = record { counts = h.counts; keys = h.keys; rests = h.rests }
Transition-IsSound (cancels live) h = record {
  counts = h.counts;
  keys = tt;
  rests = inr (refl, refl);
}
Transition-IsSound (advises adopted pending) h = record {
  counts = h.counts;
  keys = h.keys;
  rests = h.rests;
}
Transition-IsSound {s = s} (stops_segment payload g live lt) h = segment-IsSound s payload g h
Transition-IsSound {s = s} (starts d live calls asked fresh) h = record {
  counts = h.counts;
  keys = DistinctKeys-append s.run_id s.active_dispatches d h.keys fresh;
  rests = inl refl;
}
Transition-IsSound {s = s} (finishes d) h = record {
  counts = h.counts;
  keys = DistinctKeys-keep s.run_id _ s.active_dispatches h.keys;
  rests = Rests-finish s d h.rests;
}
Transition-IsSound (spends usage warning live) h = record {
  counts = h.counts;
  keys = h.keys;
  rests = h.rests;
}
Transition-IsSound (exhausts usage warning live) h = record {
  counts = h.counts;
  keys = tt;
  rests = inr (refl, refl);
}
Transition-IsSound {s = s} (recovers plan) h = record {
  counts = h.counts;
  keys = tt;
  rests = Rests-recovery s plan h.rests;
}
Transition-IsSound (accepts hash e) h = record {
  counts = h.counts;
  keys = h.keys;
  rests = inl refl;
}
Transition-IsSound (ends_round true facts e frozen) h = record {
  counts = h.counts;
  keys = h.keys;
  rests = inl refl;
}
Transition-IsSound (ends_round false facts e frozen) h = record {
  counts = h.counts;
  keys = h.keys;
  rests = inl refl;
}
Transition-IsSound (verifies e) h = record { counts = h.counts; keys = h.keys; rests = inl refl }
Transition-IsSound (reports report_completed e) h = record {
  counts = h.counts;
  keys = h.keys;
  rests = inl refl;
}
Transition-IsSound (reports report_partial e) h = record {
  counts = h.counts;
  keys = h.keys;
  rests = inl refl;
}
