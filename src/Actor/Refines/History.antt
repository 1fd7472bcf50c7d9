-- ===== src/Actor/Refines/History.antt =====
-- runtime/actor.py and runtime/store.py: the log of a run over any messages.
use code_migrator.Base.{
  ◌+◌, ◌≡◌, sym, ap, ◌∙◌, subst, List, [], ◌∷◌, ◌++◌, arith, length, length-append,
}
use mathlib.Core.List.{append_assoc, append-nil}
use code_migrator.Actor.Events.{RuntimeEvent}
use code_migrator.Actor.Store.{events_of}
use code_migrator.Actor.Core.{RunActor}
use code_migrator.Actor.Budget.{Breaker}
use code_migrator.Actor.Candidates.{CandidateVerifier}
use code_migrator.Actor.Mailbox.{Message, handle, run}
use code_migrator.Actor.Ledger.{Numbered, Numbered-append}
use code_migrator.Actor.Transition.{Step, IsCoherent, keeps, writes, log, Step-IsCoherent}
use code_migrator.Actor.Refines.Handle.{AllAdmissible, handle-Step}

-- A log that goes on from another, numbered without a gap.
abbrev pub Continues : List RuntimeEvent → List RuntimeEvent → Type 0
Continues old new =
    (more : List RuntimeEvent) × (new ≡ old ++ more) × Numbered (length old + 1) more

Step-Continues : {m : Message} (a b : RunActor) → Step m a b → Continues (log a) (log b)
Step-Continues a b (keeps i s o) = ([], ap events_of o ∙ sym (append-nil (log a)), tt)
Step-Continues a b (writes t new i r s e n o k) = (new, ap events_of o, n)

Continues-trans : (x y z : List RuntimeEvent) → Continues x y → Continues y z → Continues x z
Continues-trans x y z (front, e, n) (back, k, m) =
    let lengths : length y + 1 ≡ length x + 1 + length front =
      ground (arith, ap length e, length-append x front) in
    (
      front ++ back,
      k ∙ ap (λ l. l ++ back) e ∙ append_assoc x front back,
      Numbered-append (length x + 1) front back n (subst (λ n. Numbered n back) lengths m),
    )

-- Whatever admissible messages a coherent actor handles, its log goes on from the one before: no
-- event is changed or removed, and the new ones are numbered on without a gap.
pub run-Continues :
    (b : Breaker) (v : CandidateVerifier) (a : RunActor) (messages : List Message)
    → IsCoherent a
    → AllAdmissible b v a messages
    → Continues (log a) (log (run b v a messages))
unfolding run
run-Continues b v a [] h good = ([], sym (append-nil (log a)), tt)
run-Continues b v a (message ∷ messages) h good =
    let next = (handle b v a message).0 in
    let step = handle-Step b v a message h good.0 in
    Continues-trans (log a) (log next) _ (Step-Continues a next step)
      (run-Continues b v next messages (Step-IsCoherent a next step h) good.1)
