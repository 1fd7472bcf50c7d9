-- ===== src/Actor/Refines/Cancel.antt =====
-- runtime/actor.py, `_handle_cancel`: when a cancellation is refused, and what it does otherwise.
use code_migrator.Base.{
  string_eq, nat_eq, ℕ, String, ◌≡◌, ◌≢◌, refl, sym, ap, ◌∙◌, subst, Bool, true, false, not, Option,
  none, some, List, ◌==◌, arith, nat_beq_iff, inl, inr, if_cases, option_cases,
}
use code_migrator.Actor.Status.{is_terminal}
use code_migrator.Actor.State.{RunState}
use code_migrator.Actor.Core.{RunActor, Handled, rejected, raised, cancelled_state}
use code_migrator.Actor.Budget.{Breaker}
use code_migrator.Actor.Candidates.{CandidateVerifier}
use code_migrator.Actor.Inputs.{cancel_next, after_cancel, handle_cancel}
use code_migrator.Actor.Mailbox.{Message, run}
use code_migrator.Actor.Transition.{IsCoherent}
use code_migrator.Actor.Refines.Handle.{AllAdmissible}
use code_migrator.Actor.Refines.Final.{IsSince, run-IsSince}

-- The reasons for which a cancellation is refused, by their public codes.
pub data Refusal (expected : ℕ) : Option RunState → String → Type 0 where
  no_run : Refusal expected none "NOT_FOUND"
  stale : {s : RunState} → expected ≢ s.version → Refusal expected (some s) "STALE_VERSION"
  ended :
      {s : RunState}
      → expected ≡ s.version
      → is_terminal s.status ≡ true
      → Refusal expected (some s) "PHASE_STATUS_MISMATCH"

-- What a cancellation answers: a refusal that leaves the actor as it is, a failed commit, or the
-- cancelled state of the expected version's successor.
abbrev pub Answers : RunActor → ℕ → Handled → Type 0
Answers a expected (b, rejected code) = (b ≡ a) × Refusal expected a.state code
Answers a expected (b, raised error) =
    (error ≡ "Run cancellation was not committed")
    × ((s : RunState) × (a.state ≡ some s)
        × (s.version ≡ expected)
        × (is_terminal s.status ≡ false))
Answers a expected (b, cancelled_state t) =
    (s : RunState) × (a.state ≡ some s)
    × (s.version ≡ expected)
    × (is_terminal s.status ≡ false)
    × (t ≡ cancel_next s)
Answers a expected (b, _) = ⊥

after_cancel-Answers :
    (a : RunActor) (r : RunActor × Bool) (s : RunState) (expected : ℕ)
    → a.state ≡ some s
    → s.version ≡ expected
    → is_terminal s.status ≡ false
    → Answers a expected (after_cancel r (cancel_next s))
unfolding after_cancel
after_cancel-Answers a (b, true) s expected known e live = (s, known, e, live, refl)
after_cancel-Answers a (b, false) s expected known e live = (refl, (s, known, e, live))

-- A cancellation is refused with NOT_FOUND where there is no run, with STALE_VERSION where the expected
-- version is not the state's, with PHASE_STATUS_MISMATCH where the run has ended, each time without any
-- change; it is otherwise answered with the cancelled state, or with the error of its failed commit.
pub handle_cancel-Answers :
    (a : RunActor) (expected : ℕ) → Answers a expected (handle_cancel a expected)
unfolding handle_cancel
handle_cancel-Answers a expected =
    option_cases (Answers a expected) a.state
      (λ e. (refl, subst (λ o. Refusal expected o "NOT_FOUND") (sym e) no_run))
      (λ s known.
        if_cases (Answers a expected) (not (expected == s.version))
          (λ e.
            let differ : expected ≢ s.version =
              λ k. ground (arith, nat_beq_iff expected s.version) in
            (refl, subst (λ o. Refusal expected o "STALE_VERSION") (sym known) (stale differ)))
          (λ e.
            let same : expected ≡ s.version = (nat_beq_iff expected s.version).0 (ground arith) in
            if_cases (Answers a expected) (is_terminal s.status)
              (λ k. (
                refl,
                subst (λ o. Refusal expected o "PHASE_STATUS_MISMATCH") (sym known) (ended same k),
              ))
              (λ k. after_cancel-Answers a _ s expected known (sym same) k)))

answered :
    (a : RunActor) (expected : ℕ) (h : Handled) (t : RunState)
    → Answers a expected h
    → h.1 ≡ cancelled_state t
    → (s : RunState) × (a.state ≡ some s) × (s.version ≡ expected)
answered a expected (b, cancelled_state u) t h e = (h.0, h.1, h.2)
answered a expected (b, rejected code) t h e = absurd (ground arith)
answered a expected (b, raised error) t h e = absurd (ground arith)
answered a expected (b, _) t h e = absurd h

since-exact : (s u : RunState) → IsSince s (some u) → u.version ≡ s.version → u ≡ s
since-exact s u (inl e) k = e
since-exact s u (inr lt) k = absurd (omega arith)

-- A client read a state of a coherent actor; whatever admissible messages were handled since, a
-- cancellation that names the version of that state succeeds only if the state is still that one.
pub cancel-exact :
    (b : Breaker) (v : CandidateVerifier) (a : RunActor) (messages : List Message) (s t : RunState)
    → IsCoherent a
    → AllAdmissible b v a messages
    → a.state ≡ some s
    → (handle_cancel (run b v a messages) s.version).1 ≡ cancelled_state t
    → (run b v a messages).state ≡ some s
cancel-exact b v a messages s t h good known done =
    let later = run b v a messages in
    let (u, now, same) =
      answered later s.version _ t (handle_cancel-Answers later s.version) done in
    let since : IsSince s (some u) =
      subst (IsSince s) now (run-IsSince b v a messages s h good known) in
    now ∙ ap some (since-exact s u since same)
