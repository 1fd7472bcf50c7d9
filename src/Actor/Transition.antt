-- ===== src/Actor/Transition.antt =====
-- runtime/actor.py: the changes of a run's state that the actor is meant to make, as a step relation, and what a
-- handler may do to the actor: keep the state and the log, or write one such change with its events.
use code_migrator.Base.{
  string_eq, nat_eq, ℕ, suc, ◌+◌, ◌<◌, String, ◌≡◌, refl, sym, ap, ◌∙◌, subst, Bool, true, false,
  Option, none, some, List, ◌++◌, ok, err, length, any, option_cases, if_cases, ◌==◌, get,
}
use code_migrator.Integration.{is_some}
use code_migrator.Wallet.Account.{Amounts}
use code_migrator.Actor.Status.{status_eq, planning, executing, verifying, reporting, is_terminal}
use code_migrator.Actor.Events.{EventSpec, RuntimeEvent}
use code_migrator.Actor.State.{RunState, RuntimeSnapshot, ActiveDispatch, CandidateCheckpointFact}
use code_migrator.Actor.Store.{Store, Outcome, load, events_of}
use code_migrator.Actor.Store
use code_migrator.Actor.Core.{
  RunActor, PortCall, Port, commit, committed_events, adopt_snapshot, call_port,
  run_status_changed_event,
}
use code_migrator.Actor.Inputs.{SessionPayload, initial_state, cancel_next, segment_next}
use code_migrator.Actor.Dispatches.{start_next, finish_next, has_key}
use code_migrator.Actor.Budget.{usage_next, exhausted_next}
use code_migrator.Actor.Judgement.{RecoveryPlan, recovery_next}
use code_migrator.Actor.Workflow.{ReportStatus, accepted_next, status_of_report, bump}
use code_migrator.Actor.Rounds.{round_next}
use code_migrator.Actor.Mailbox.{Message}
use code_migrator.Actor.Meaning.{Meant, announced}
use code_migrator.Actor.Ledger.{
  Numbered, WritesOr, logged_types, given_types, given_types-append, commit-WritesOr,
  materialize-Numbered, materialize-logged_types,
}

-- The advice identifiers, with the next version.
abbrev pub advised : RunState → List String → List String → RunState
advised s adopted pending = record s {
  adopted_advice_ids = adopted;
  pending_advice_ids = pending;
  version = suc s.version;
}

pub data Transition (s : RunState) : RunState → Type 0 where
  records : Transition s s
  bumps : Transition s (bump s)
  cancels : is_terminal s.status ≡ false → Transition s (cancel_next s)
  advises : (adopted pending : List String) → Transition s (advised s adopted pending)
  stops_segment :
      (payload : SessionPayload) (generation : ℕ)
      → is_terminal s.status ≡ false
      → generation < 3
      → Transition s (segment_next s payload generation)
  starts :
      (dispatch : ActiveDispatch)
      → is_terminal s.status ≡ false
      → s.new_calls_enabled ≡ true
      → s.cancel_requested ≡ false
      → any (has_key dispatch s.run_id) s.active_dispatches ≡ false
      → Transition s (start_next s dispatch)
  finishes : (dispatch : ActiveDispatch) → Transition s (finish_next s dispatch)
  spends :
      (usage : Amounts) (warning : Bool)
      → is_terminal s.status ≡ false
      → Transition s (usage_next s usage warning)
  exhausts :
      (usage : Amounts) (warning : Bool)
      → is_terminal s.status ≡ false
      → Transition s (exhausted_next (usage_next s usage warning))
  recovers : (plan : RecoveryPlan) → Transition s (recovery_next s plan)
  accepts : (hash : String) → s.status ≡ planning → Transition s (accepted_next s hash)
  ends_round :
      (complete : Bool) (facts : List CandidateCheckpointFact)
      → s.status ≡ executing
      → is_some s.frozen_plan_sha256 ≡ true
      → Transition s (round_next s complete facts)
  verifies :
      s.status ≡ verifying → Transition s (record s { status = reporting; version = suc s.version })
  reports :
      (status : ReportStatus)
      → s.status ≡ reporting
      → Transition s (record s { status = status_of_report status; version = suc s.version })

-- The first state of a run, and those that follow it.
pub data Evolves (run_id : String) : Option RunState → RunState → Type 0 where
  begins : (request : String) → Evolves run_id none (initial_state run_id request)
  moves : {s t : RunState} → Transition s t → Evolves run_id (some s) t

-- The snapshot of the actor's run.
abbrev pub own : RunActor → Option RuntimeSnapshot
own a = load a.store a.run_id

abbrev pub log : RunActor → List RuntimeEvent
log a = events_of (own a)

-- What a message does to the actor. Where it writes, the change is a transition, and the change and
-- the types of the written events are what the message means.
pub data Step (m : Message) (a b : RunActor) : Type 0 where
  keeps : b.run_id ≡ a.run_id → b.state ≡ a.state → own b ≡ own a → Step m a b
  writes :
      (t : RunState) (new : List RuntimeEvent)
      → b.run_id ≡ a.run_id
      → t.run_id ≡ a.run_id
      → b.state ≡ some t
      → Evolves a.run_id a.state t
      → Numbered (length (log a) + 1) new
      → own b ≡ some (record { state = t; events = log a ++ new })
      → Meant m a.state t (logged_types new)
      → Step m a b

-- What does not touch the run: its identity, its state and its store stay.
abbrev pub Same : RunActor → RunActor → Type 0
Same b c = (c.run_id ≡ b.run_id) × (c.state ≡ b.state) × (c.store ≡ b.store)

own-Same : (b c : RunActor) → Same b c → own c ≡ own b
own-Same b c (i, s, t) = cc

pub Step-refl : {m : Message} (a : RunActor) → Step m a a
Step-refl a = keeps refl refl refl

pub Step-Same : {m : Message} (a b c : RunActor) → Same b c → Step m a b → Step m a c
Step-Same a b c same (keeps i s o) = keeps (same.0 ∙ i) (same.1 ∙ s) (own-Same b c same ∙ o)
Step-Same a b c same (writes t new i r s e n o k) =
    writes t new (same.0 ∙ i) r (same.1 ∙ s) e n (own-Same b c same ∙ o) k

-- A step from what is the same is a step.
pub Same-Step : {m : Message} (a b c : RunActor) → Same a b → Step m b c → Step m a c
Same-Step a b c same (keeps i s o) = keeps (i ∙ same.0) (s ∙ same.1) (o ∙ own-Same a b same)
Same-Step {m = m} a b c same (writes t new i r s e n o k) =
    let logs = own-Same a b same in
    writes t new (i ∙ same.0) (r ∙ same.0) s
      (subst (λ (x : Option RunState). Evolves a.run_id x t) same.1
        (subst (λ x. Evolves x b.state t) same.0 e))
      (subst (λ (x : Option RuntimeSnapshot). Numbered (length (events_of x) + 1) new) logs n)
      (subst
        (λ (x : Option RuntimeSnapshot).
          own c ≡ some (record { state = t; events = events_of x ++ new }))
        logs o)
      (subst (λ (x : Option RunState). Meant m x t (logged_types new)) same.1 k)

pub call_port-Same :
    (a : RunActor) (s : RunState) (p : Option Port) (c : PortCall) → Same a (call_port a s p c)
call_port-Same a s none c = (refl, refl, refl)
call_port-Same a s (some port) c =
    option_cases (Same a) (port s) (λ e. (refl, refl, refl)) (λ error e. (refl, refl, refl))

adopt_snapshot-Step :
    {m : Message} (a : RunActor) (t : RunState) (events : List EventSpec)
    (o : Outcome RuntimeSnapshot)
    → t.run_id ≡ a.run_id
    → Evolves a.run_id a.state t
    → WritesOr a.store a.run_id t events o
    → Meant m a.state t (given_types events)
    → Step m a (adopt_snapshot a o).0
unfolding adopt_snapshot load
adopt_snapshot-Step {m = m} a t events (store, ok snapshot) r e (same, (new, made, stored)) means =
    writes t new refl r (ap some same) e
      (materialize-Numbered a.store.secret_registry (length (log a) + 1) events new made) stored
      (subst (Meant m a.state t)
        (sym
          (materialize-logged_types a.store.secret_registry (length (log a) + 1) events new made))
        means)
adopt_snapshot-Step a t events (store, err error) r e kept means =
    keeps refl refl (ap (get a.run_id) kept)

-- The events of a commit, where the actor has a state.
committed_types :
    (s t : RunState) (events : List EventSpec)
    → given_types (committed_events (some s) t events)
      ≡ announced s.status t.status (given_types events)
unfolding committed_events run_status_changed_event
committed_types s t events =
    if_cases
      (λ (x : List EventSpec). given_types x ≡ announced s.status t.status (given_types events))
      (s.status == t.status) (λ e. rw e refl) (λ e. rw e (given_types-append events _))

-- A commit makes the change that it is given, or none.
pub commit-Step :
    {m : Message} (a : RunActor) (s t : RunState) (events : List EventSpec)
    → a.state ≡ some s
    → s.run_id ≡ a.run_id
    → t.run_id ≡ s.run_id
    → Transition s t
    → Meant m (some s) t (announced s.status t.status (given_types events))
    → Step m a (commit a t events).0
unfolding commit
commit-Step {m = m} a s t events known owned same change means =
    let owned' : t.run_id ≡ a.run_id = same ∙ owned in
    let events' = committed_events a.state t events in
    adopt_snapshot-Step a t events' _ owned'
      (subst (λ o. Evolves a.run_id o t) (sym known) (moves change))
      (subst (λ r. WritesOr a.store r t events' (Store.commit a.store t events')) owned'
        (commit-WritesOr a.store t events'))
      (subst (λ o. Meant m o t (given_types (committed_events o t events))) (sym known)
        (subst (Meant m (some s) t) (sym (committed_types s t events)) means))

-- The actor's state is the one in the store's snapshot of its run, and there is none where the actor
-- has none.
abbrev Agrees : String → Option RunState → Option RuntimeSnapshot → Type 0
Agrees run_id none none = Unit
Agrees run_id none (some snapshot) = ⊥
Agrees run_id (some s) none = ⊥
Agrees run_id (some s) (some snapshot) = (s.run_id ≡ run_id) × (snapshot.state ≡ s)

abbrev pub IsCoherent : RunActor → Type 0
IsCoherent a = Agrees a.run_id a.state (own a)

-- A coherent actor's state: it is of the actor's run.
pub coherent-owned :
    (a : RunActor) (s : RunState) → IsCoherent a → a.state ≡ some s → s.run_id ≡ a.run_id
coherent-owned a s h known = owned (own a) (subst (λ o. Agrees a.run_id o (own a)) known h)
  where
    owned : (o : Option RuntimeSnapshot) → Agrees a.run_id (some s) o → s.run_id ≡ a.run_id
    owned none k = absurd k
    owned (some snapshot) k = k.0

-- Its snapshot is there, with that state.
pub coherent-stored :
    (a : RunActor) (s : RunState)
    → IsCoherent a
    → a.state ≡ some s
    → (snapshot : RuntimeSnapshot) × (own a ≡ some snapshot) × (snapshot.state ≡ s)
coherent-stored a s h known = stored (own a) refl (subst (λ o. Agrees a.run_id o (own a)) known h)
  where
    stored :
        (o : Option RuntimeSnapshot)
        → own a ≡ o
        → Agrees a.run_id (some s) o
        → (snapshot : RuntimeSnapshot) × (own a ≡ some snapshot) × (snapshot.state ≡ s)
    stored none e k = absurd k
    stored (some snapshot) e k = (snapshot, e, k.1)

pub Step-IsCoherent : {m : Message} (a b : RunActor) → Step m a b → IsCoherent a → IsCoherent b
Step-IsCoherent a b (keeps i s o) h =
    subst (λ (r : String). Agrees r b.state (own b)) (sym i)
      (subst (λ (x : Option RunState). Agrees a.run_id x (own b)) (sym s)
        (subst (λ (x : Option RuntimeSnapshot). Agrees a.run_id a.state x) (sym o) h))
Step-IsCoherent a b (writes t new i r s e n o k) h =
    subst (λ (r : String). Agrees r b.state (own b)) (sym i)
      (subst (λ (x : Option RunState). Agrees a.run_id x (own b)) (sym s)
        (subst (λ (x : Option RuntimeSnapshot). Agrees a.run_id (some t) x) (sym o) (r, refl)))
