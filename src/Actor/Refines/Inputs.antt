-- ===== src/Actor/Refines/Inputs.antt =====
-- runtime/actor.py: the commands of the API refine the transitions.
use code_migrator.Base.{
  string_eq, nat_eq, option_eq, ℕ, ◌+◌, ◌<◌, String, ◌≡◌, refl, sym, ap, subst, Bool, true, false,
  not, Option, none, some, List, [], ◌∷◌, ◌++◌, ◌==◌, arith, Result, ok, err, if_cases,
  option_cases, contains, eq_iff, Bool-cases, inl, inr, nat_beq_iff, keep, get_or, get, ltb, ltb→lt,
  ◌&&◌, length,
}
use code_migrator.Actor.Status.{is_terminal}
use code_migrator.Actor.Events.{EventSpec, spec}
use code_migrator.Actor.State.{RunState, RuntimeSnapshot}
use code_migrator.Actor.Store.{Outcome, load, create}
use code_migrator.Actor.Core.{
  RunActor, RunCreatedReceipt, Handled, commit, cancel_work, schedule_continuation, call_port,
  run_status_changed_event,
}
use code_migrator.Actor.Inputs.{
  SessionPayload, Given, set_create_receipt, initial_state, created_events, adopt_created,
  create_state, handle_create, cancel_next, after_cancel, handle_cancel, cancel_queue,
  handle_advice_confirmation, segment_next, is_eligible, after_segment, handle_segment_stopped,
  segment_event, generation_of, handle_session_input, run_created_receipt, missing, an_int, other,
}
use code_migrator.Actor.Mailbox.{Message, create_run, cancel, session_input}
use code_migrator.Actor.Meaning.{
  Meant, announced, continuations, creation, cancellation, confirmation, refused_confirmation,
  continuation, slice_failure, invalid_generation, other_input,
}
use code_migrator.Actor.Ledger.{
  WritesOr, given_types, logged_types, create-WritesOr, materialize-Numbered,
  materialize-logged_types,
}
use code_migrator.Actor.Transition.{
  Step, Same, IsCoherent, Evolves, begins, keeps, writes, log, advised, records, bumps, cancels,
  advises, stops_segment, Step-refl, Step-Same, call_port-Same, commit-Step, coherent-owned,
}

abbrev pub StepsTo : Message → RunActor → Handled → Type 0
StepsTo m a handled = Step m a handled.0

set_create_receipt-Same :
    (a : RunActor) (r : Result String (Option RunCreatedReceipt))
    → Same a (set_create_receipt a r).0
set_create_receipt-Same a (ok receipt) = (refl, refl, refl)
set_create_receipt-Same a (err error) = (refl, refl, refl)

adopt_created-Step :
    {m : Message} (a : RunActor) (request : String) (events : List EventSpec)
    (o : Outcome RuntimeSnapshot)
    → a.state ≡ none
    → Meant m none (initial_state a.run_id request) (given_types events)
    → WritesOr a.store a.run_id (initial_state a.run_id request) events o
    → StepsTo m a (adopt_created a o)
unfolding adopt_created initial_state load
adopt_created-Step a request events (store, err error) fresh means kept =
    keeps refl refl (ap (get a.run_id) kept)
adopt_created-Step {m = m} a request events (store, ok snapshot) fresh means
      (same, (new, made, stored)) =
    let adopted : RunActor = record a { store = store; state = some snapshot.state } in
    Step-Same a adopted _
      (set_create_receipt-Same adopted (run_created_receipt (some snapshot) a.run_id))
      (writes (initial_state a.run_id request) new refl refl (ap some same)
        (subst (λ o. Evolves a.run_id o (initial_state a.run_id request)) (sym fresh)
          (begins request))
        (materialize-Numbered a.store.secret_registry (length (log a) + 1) events new made) stored
        (subst (λ o. Meant m o (initial_state a.run_id request) (logged_types new)) (sym fresh)
          (subst (Meant m none (initial_state a.run_id request))
            (sym (
              materialize-logged_types a.store.secret_registry (length (log a) + 1) events new
                made))
            means)))

create_state-Step :
    (a : RunActor) (o : Option RunState) (run_id request : String) (t : Bool)
    → a.state ≡ o
    → run_id ≡ a.run_id
    → StepsTo (create_run run_id request t) a (create_state a o request t)
unfolding create_state initial_state created_events run_status_changed_event
create_state-Step a (some s) run_id request t known mine =
    if_cases (StepsTo _ a) (not (s.create_request == some request)) (λ e. keeps refl refl refl)
      (λ e. Step-Same a a _ (set_create_receipt-Same a _) (Step-refl a))
create_state-Step a none run_id request t known mine =
    let first = initial_state a.run_id request in
    adopt_created-Step a request (created_events first)
      (create a.store t first (created_events first)) known
      (creation run_id a.run_id request t mine)
      (create-WritesOr a.store t first (created_events first))

pub handle_create-Step :
    (a : RunActor) (run_id request : String) (t : Bool)
    → StepsTo (create_run run_id request t) a (handle_create a run_id request t)
unfolding handle_create
handle_create-Step a run_id request t =
    if_cases (StepsTo _ a) (not (run_id == a.run_id)) (λ e. Step-refl a)
      (λ e.
        create_state-Step a a.state run_id request t refl (ground (arith, eq_iff run_id a.run_id)))

after_cancel-Same : (r : RunActor × Bool) (s : RunState) → Same r.0 (after_cancel r s).0
unfolding after_cancel
after_cancel-Same (a, false) s = (refl, refl, refl)
after_cancel-Same (a, true) s =
    let queued : RunActor = record a {
      integration_coordinator = cancel_queue a.integration_coordinator a.run_id;
    } in
    let called : Same queued (call_port queued s a.cancellation_port (cancel_work a.run_id)) =
      call_port-Same queued s a.cancellation_port (cancel_work a.run_id) in
    called

pub handle_cancel-Step :
    (a : RunActor) (version : ℕ)
    → IsCoherent a
    → StepsTo (cancel version) a (handle_cancel a version)
unfolding handle_cancel cancel_next
handle_cancel-Step a version h =
    option_cases (StepsTo _ a) a.state (λ e. Step-refl a)
      (λ s known.
        if_cases (StepsTo _ a) (not (version == s.version)) (λ e. Step-refl a)
          (λ e.
            if_cases (StepsTo _ a) (is_terminal s.status) (λ k. Step-refl a)
              (λ k.
                let events = spec "run.cancelled" [] ∷ [] in
                Step-Same a (commit a (cancel_next s) events).0 _
                  (after_cancel-Same (commit a (cancel_next s) events) (cancel_next s))
                  (commit-Step a s (cancel_next s) events known (coherent-owned a s h known) refl
                    (cancels k)
                    (cancellation version (ground (arith, nat_beq_iff version s.version)) k)))))

advice_confirmation-Step :
    (a : RunActor) (s : RunState) (kind : String) (p : SessionPayload)
    → a.state ≡ some s
    → s.run_id ≡ a.run_id
    → is_terminal s.status ≡ false
    → (kind == "confirm_advice") ≡ true
    → StepsTo (session_input kind p) a (handle_advice_confirmation a s p)
unfolding handle_advice_confirmation
advice_confirmation-Step a s kind p known owned live asked =
    if_cases (StepsTo _ a) (not (contains (get_or "" p.advice_id) s.pending_advice_ids))
      (λ e.
        commit-Step a s s _ known owned refl records
          (refused_confirmation kind p live asked (ground arith)))
      (λ e.
        commit-Step a s
          (advised s (s.adopted_advice_ids ++ get_or "" p.advice_id ∷ [])
            (keep (λ item. not (item == get_or "" p.advice_id)) s.pending_advice_ids))
          _ known owned refl
          (advises (s.adopted_advice_ids ++ get_or "" p.advice_id ∷ [])
            (keep (λ item. not (item == get_or "" p.advice_id)) s.pending_advice_ids))
          (confirmation kind p live asked (ground arith)))

after_segment-Step :
    {m : Message} (a : RunActor) (r : RunActor × Bool) (s : RunState) (eligible : Bool) (g : ℕ)
    → Step m a r.0
    → StepsTo m a (after_segment r s eligible g)
unfolding after_segment
after_segment-Step a (b, committed) s eligible g step =
    if_cases (StepsTo _ a) (committed && eligible)
      (λ e.
        Step-Same a b _ (call_port-Same b s b.continuation_port (schedule_continuation b.run_id g))
          step)
      (λ e. step)

generation_of-lt : (g : Given) (n : ℕ) → generation_of g ≡ some n → n < 3
generation_of-lt missing n h = ground arith
generation_of-lt (an_int m) n h =
    if_cases (λ o. o ≡ some n → n < 3) (ltb m 3) (λ e k. ground (arith, ltb→lt m 3))
      (λ e k. absurd (ground arith)) h
generation_of-lt other n h = absurd (ground arith)

-- A stopped segment goes on, or its slice fails.
segment-Meant :
    (s : RunState) (kind : String) (p : SessionPayload) (g : ℕ)
    → is_terminal s.status ≡ false
    → (kind == "segment_stopped") ≡ true
    → generation_of p.generation ≡ some g
    → Meant (session_input kind p) (some s) (segment_next s p g) (
        announced s.status
          (segment_next s p g).status
          (given_types (segment_event (is_eligible s p g) g (continuations s g) ∷ [])))
unfolding segment_next
segment-Meant s kind p g live stopped given = elim (Bool-cases (is_eligible s p g)) [
  | inl e ↦ rw e (continuation kind p g live stopped given e)
  | inr e ↦ rw e (slice_failure kind p g live stopped given e)
]

segment_stopped-Step :
    (a : RunActor) (s : RunState) (kind : String) (p : SessionPayload)
    → a.state ≡ some s
    → s.run_id ≡ a.run_id
    → is_terminal s.status ≡ false
    → (kind == "segment_stopped") ≡ true
    → StepsTo (session_input kind p) a (handle_segment_stopped a s p)
unfolding handle_segment_stopped segment_next
segment_stopped-Step a s kind p known owned live stopped =
    option_cases (StepsTo _ a) (generation_of p.generation)
      (λ e. commit-Step a s _ _ known owned refl bumps (invalid_generation kind p live stopped e))
      (λ g e. after_segment-Step a _ (segment_next s p g) (is_eligible s p g) g (
        commit-Step a s (segment_next s p g) _ known owned refl
          (stops_segment p g live (generation_of-lt p.generation g e))
          (segment-Meant s kind p g live stopped e)))

pub session_input-Step :
    (a : RunActor) (kind : String) (p : SessionPayload)
    → IsCoherent a
    → StepsTo (session_input kind p) a (handle_session_input a kind p)
unfolding handle_session_input
session_input-Step a kind p h =
    option_cases (StepsTo _ a) a.state (λ e. Step-refl a)
      (λ s known.
        let owned = coherent-owned a s h known in
        if_cases (StepsTo _ a) (is_terminal s.status) (λ e. Step-refl a)
          (λ live.
            if_cases (StepsTo _ a) (kind == "confirm_advice")
              (λ e. advice_confirmation-Step a s kind p known owned live e)
              (λ e.
                if_cases (StepsTo _ a) (kind == "segment_stopped")
                  (λ k. segment_stopped-Step a s kind p known owned live k)
                  (λ k. commit-Step a s _ _ known owned refl bumps (other_input kind p live e k)))))
