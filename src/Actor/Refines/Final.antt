-- ===== src/Actor/Refines/Final.antt =====
-- runtime/actor.py: the end of a run, its versions, and what holds of its state over any messages.
use code_migrator.Base.{
  string_eq, nat_eq, suc, ◌<◌, String, ◌≡◌, refl, sym, ap, ◌∙◌, subst, true, Option, none, some,
  List, [], ◌∷◌, arith, ◌⊎◌, inl, inr,
}
use code_migrator.Actor.Status.{RunStatus, is_terminal}
use code_migrator.Actor.State.{RunState}
use code_migrator.Actor.Core.{RunActor}
use code_migrator.Actor.Budget.{Breaker, usage_next, exhausted_next}
use code_migrator.Actor.Candidates.{CandidateVerifier}
use code_migrator.Actor.Inputs.{initial_state, cancel_next, segment_next}
use code_migrator.Actor.Dispatches.{start_next, finish_next}
use code_migrator.Actor.Judgement.{recovery_next}
use code_migrator.Actor.Workflow.{accepted_next}
use code_migrator.Actor.Rounds.{round_next}
use code_migrator.Actor.Mailbox.{Message, handle, run}
use code_migrator.Actor.Soundness.{IsSound, Transition-IsSound, terminal_stays}
use code_migrator.Actor.Transition.{
  Transition, Evolves, Step, IsCoherent, keeps, writes, begins, moves, Step-IsCoherent, records,
  bumps, cancels, advises, stops_segment, starts, finishes, spends, exhausts, recovers, accepts,
  ends_round, verifies, reports,
}
use code_migrator.Actor.Refines.Handle.{AllAdmissible, handle-Step}

-- What a state, if there is one, has in common with those that follow it.
module _ (P : Option RunState → Type 0)
    (after : (r : String) (o : Option RunState) (t : RunState)
      → Evolves r o t
      → P o
      → P (some t)) where
  Step-keeps : {m : Message} (a b : RunActor) → Step m a b → P a.state → P b.state
  Step-keeps a b (keeps i s o) h = subst P (sym s) h
  Step-keeps a b (writes t new i r s e n o k) h = subst P (sym s) (after a.run_id a.state t e h)

  run-keeps :
      (b : Breaker) (v : CandidateVerifier) (a : RunActor) (messages : List Message)
      → IsCoherent a
      → AllAdmissible b v a messages
      → P a.state
      → P (run b v a messages).state
  unfolding run
  run-keeps b v a [] h good p = p
  run-keeps b v a (message ∷ messages) h good p =
      let next = (handle b v a message).0 in
      let step = handle-Step b v a message h good.0 in
      run-keeps b v next messages (Step-IsCoherent a next step h) good.1 (Step-keeps a next step p)

abbrev pub StateIsSound : Option RunState → Type 0
StateIsSound none = Unit
StateIsSound (some s) = IsSound s

Evolves-IsSound :
    (r : String) (o : Option RunState) (t : RunState)
    → Evolves r o t
    → StateIsSound o
    → StateIsSound (some t)
unfolding initial_state
Evolves-IsSound r none t (begins request) h = record { counts = tt; keys = tt; rests = inl refl }
Evolves-IsSound r (some s) t (moves change) h = Transition-IsSound change h

-- Whatever admissible messages a coherent actor with a sound state handles, its state is sound: no
-- generation has used more than three continuations, no two active dispatches have a subject and a
-- check in common, and a cancelled or failed run makes no new calls and has no active dispatch.
pub run-IsSound :
    (b : Breaker) (v : CandidateVerifier) (a : RunActor) (messages : List Message)
    → IsCoherent a
    → AllAdmissible b v a messages
    → StateIsSound a.state
    → StateIsSound (run b v a messages).state
run-IsSound b v a messages h good sound =
    run-keeps StateIsSound Evolves-IsSound b v a messages h good sound

-- A state with a terminal status.
abbrev pub HasEnded : RunStatus → Option RunState → Type 0
HasEnded x none = ⊥
HasEnded x (some s) = (s.status ≡ x) × (is_terminal x ≡ true)

Evolves-HasEnded :
    (x : RunStatus) (r : String) (o : Option RunState) (t : RunState)
    → Evolves r o t
    → HasEnded x o
    → HasEnded x (some t)
Evolves-HasEnded x r none t (begins request) h = absurd h
Evolves-HasEnded x r (some s) t (moves change) h =
    (terminal_stays change (subst (λ y. is_terminal y ≡ true) (sym h.0) h.1) ∙ h.0, h.1)

-- Whatever admissible messages a coherent actor handles, a run that completed, completed in part,
-- failed or was cancelled keeps that status.
pub ended-final :
    (b : Breaker) (v : CandidateVerifier) (a : RunActor) (messages : List Message) (x : RunStatus)
    → IsCoherent a
    → AllAdmissible b v a messages
    → HasEnded x a.state
    → HasEnded x (run b v a messages).state
ended-final b v a messages x h good ended =
    run-keeps (HasEnded x) (Evolves-HasEnded x) b v a messages h good ended

-- The state that was there, or one of a later version.
abbrev pub IsSince : RunState → Option RunState → Type 0
IsSince s none = ⊥
IsSince s (some t) = (t ≡ s) ⊎ (s.version < t.version)

-- A change of the state raises its version by one.
raises : {s t : RunState} → Transition s t → (t ≡ s) ⊎ (t.version ≡ suc s.version)
unfolding cancel_next segment_next start_next finish_next usage_next exhausted_next recovery_next
    accepted_next round_next
raises records = inl refl
raises bumps = inr refl
raises (cancels live) = inr refl
raises (advises adopted pending) = inr refl
raises (stops_segment payload g live lt) = inr refl
raises (starts d live calls asked fresh) = inr refl
raises (finishes d) = inr refl
raises (spends usage warning live) = inr refl
raises (exhausts usage warning live) = inr refl
raises (recovers plan) = inr refl
raises (accepts hash e) = inr refl
raises (ends_round complete facts e frozen) = inr refl
raises (verifies e) = inr refl
raises (reports status e) = inr refl

IsSince-raised :
    (s t u : RunState)
    → (u ≡ t) ⊎ (u.version ≡ suc t.version)
    → IsSince s (some t)
    → IsSince s (some u)
IsSince-raised s t u (inl e) h = subst (λ w. IsSince s (some w)) (sym e) h
IsSince-raised s t u (inr e) (inl k) = inr (ground (arith, ap (λ (w : RunState). w.version) k))
IsSince-raised s t u (inr e) (inr lt) = inr (ground arith)

Evolves-IsSince :
    (s : RunState) (r : String) (o : Option RunState) (t : RunState)
    → Evolves r o t
    → IsSince s o
    → IsSince s (some t)
Evolves-IsSince s r none t (begins request) h = absurd h
Evolves-IsSince s r (some u) t (moves change) h = IsSince-raised s u t (raises change) h

-- Whatever admissible messages a coherent actor with a state handles, it has afterwards that very
-- state, or one of a higher version: a version names one state.
pub run-IsSince :
    (b : Breaker) (v : CandidateVerifier) (a : RunActor) (messages : List Message) (s : RunState)
    → IsCoherent a
    → AllAdmissible b v a messages
    → a.state ≡ some s
    → IsSince s (run b v a messages).state
run-IsSince b v a messages s h good known =
    run-keeps (IsSince s) (Evolves-IsSince s) b v a messages h good
      (subst (IsSince s) (sym known) (inl refl))
