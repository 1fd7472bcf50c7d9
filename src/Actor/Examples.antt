-- ===== src/Actor/Examples.antt =====
-- A run that is created, works and is cancelled, and the theorems of the actor at it.
use code_migrator.Base.{
  string_eq, nat_eq, ℕ, String, ◌≡◌, ◌↔◌, refl, true, false, none, some, List, [], ◌∷◌, get, put,
  ap, Bool, arith, PyEq, Option, ◌==◌,
}
use code_migrator.Base.Tests.{leb, pair_eq}
use code_migrator.Base.Texts.{list_eq}
use code_migrator.Wallet.Account.{Amounts}
use code_migrator.Actor.Status.{verifying, cancelled}
use code_migrator.Actor.Events.{
  ActorPhaseReceipt, event_for_receipt, actor_phase_receipt, receipt_key,
}
use code_migrator.Actor.State.{RunState, ActiveDispatch, run_state}
use code_migrator.Actor.Store.{Store, load, write, commit, create, materialize, append_events}
use code_migrator.Actor.Core.{
  RunActor, phase_receipt, cancelled_state, respond_receipt, committed_events, adopt_snapshot,
  run_status_changed_event,
}
use code_migrator.Actor.Core
use code_migrator.Actor.Budget.{Breaker}
use code_migrator.Actor.Candidates.{CandidateVerifier}
use code_migrator.Actor.Inputs.{
  SessionPayload, an_int, initial_state, created_events, adopt_created, create_state, handle_create,
  cancel_next, after_cancel, handle_cancel, run_created_receipt, find_created,
  run_created_receipt_of,
}
use code_migrator.Actor.Dispatches.{handle_execution, finish_dispatch}
use code_migrator.Actor.Workflow.{commit_verification, after_commit}
use code_migrator.Actor.Mailbox.{
  Message, Command, handle, run, handle_workflow_command, reduce_command, create_run, cancel,
  session_input, execution_receipt, budget_event, verification,
}
use code_migrator.Actor.Transition.{Step, IsCoherent, log}
use code_migrator.Actor.Checkpoint.{
  Field, Payload, ActorCheckpoint, text, texts, number, payload_of, checksum_of, restored,
  restore-create,
}
use code_migrator.Actor.Checkpoint
use code_migrator.Actor.Refines.Handle.{handle-Step, run-IsCoherent}
use code_migrator.Actor.Refines.History.{Continues, run-Continues}
use code_migrator.Actor.Refines.Final.{
  StateIsSound, HasEnded, run-IsSound, ended-final, run-IsSince, IsSince,
}
use code_migrator.Actor.Refines.Cancel.{Answers, handle_cancel-Answers, cancel-exact}
use code_migrator.Actor.Refines.Replay.{command-repeats}

abbrev limits : Amounts
limits = record { input_tokens = 10; output_tokens = 10; cost_micros = 10 }

abbrev breaker : Breaker
breaker = record {
  Float = ℕ;
  divide = λ a b. a;
  at_least = λ a b. leb b a;
  four_fifths = 8;
  unit = 10;
}

abbrev verifier : CandidateVerifier
verifier = record { checkpoint_receipt_digest = λ r. "digest"; is_committed_receipt = none }

abbrev empty_store : Store
empty_store = record {
  snapshots = [];
  agent_runs = [];
  agent_receipts = [];
  cas_refs = [];
  integration_intents = [];
  integration_receipts = [];
  fail_next = false;
  commit_count = 0;
  secret_registry = λ entries. some entries;
  receipt_digest = λ key oid. oid;
}

abbrev new_actor : RunActor
new_actor = record {
  run_id = "r1";
  store = empty_store;
  budget_limits = limits;
  advice_context = record {
    expected_subjects = [];
    attribution_candidates = [];
    joint_domain_members = [];
    max_fanout = 3;
  };
  advice_proposal_hash = λ a. "hash";
  checkpoint_writer = none;
  cancellation_port = none;
  continuation_port = none;
  archive_port = none;
  integration_coordinator = none;
  repair_advice_port = none;
  has_execution_scheduler = false;
  state = none;
  last_error = none;
  last_dispatch_acceptance = none;
  create_receipt = none;
  execution_round_responses = [];
  execution_round_tasks = [];
  calls = [];
}

abbrev a_dispatch : ActiveDispatch
a_dispatch = record {
  dispatch_attempt_id = "a1";
  subject = "slice s1";
  check_id = "c1";
  tested_commit_oid = "o1";
}

abbrev stopped : SessionPayload
stopped = record {
  advice_id = none;
  generation = an_int 1;
  material_progress = true;
  checkpoint_diff = false;
  slice_id = some "s1";
}

abbrev work : List Message
work =
    create_run "r1" "request" false
    ∷ execution_receipt "r1" a_dispatch none true
    ∷ session_input "segment_stopped" stopped
    ∷ budget_event limits
    ∷ cancel 4
    ∷ []

-- No run is stored yet.
new_actor-IsCoherent : IsCoherent new_actor
unfolding load get
new_actor-IsCoherent = tt

handle-Step_example :
    Step
      (create_run "r1" "request" false)
      new_actor
      (handle breaker verifier new_actor (create_run "r1" "request" false)).0
handle-Step_example =
    handle-Step breaker verifier new_actor (create_run "r1" "request" false) new_actor-IsCoherent tt

run-IsCoherent_example : IsCoherent (run breaker verifier new_actor work)
run-IsCoherent_example =
    run-IsCoherent breaker verifier new_actor work new_actor-IsCoherent
      (tt, (tt, (tt, (tt, (tt, tt)))))

run-Continues_example : Continues (log new_actor) (log (run breaker verifier new_actor work))
run-Continues_example =
    run-Continues breaker verifier new_actor work new_actor-IsCoherent
      (tt, (tt, (tt, (tt, (tt, tt)))))

run-IsSound_example : StateIsSound (run breaker verifier new_actor work).state
run-IsSound_example =
    run-IsSound breaker verifier new_actor work new_actor-IsCoherent
      (tt, (tt, (tt, (tt, (tt, tt))))) tt

abbrev begun : RunActor
begun = run breaker verifier new_actor (create_run "r1" "request" false ∷ [])

begun-IsCoherent : IsCoherent begun
begun-IsCoherent =
    run-IsCoherent breaker verifier new_actor (create_run "r1" "request" false ∷ [])
      new_actor-IsCoherent (tt, tt)

abbrev gone : RunActor
gone = run breaker verifier new_actor (create_run "r1" "request" false ∷ cancel 1 ∷ [])

gone-IsCoherent : IsCoherent gone
gone-IsCoherent =
    run-IsCoherent breaker verifier new_actor (create_run "r1" "request" false ∷ cancel 1 ∷ [])
      new_actor-IsCoherent (tt, (tt, tt))

gone-HasEnded : HasEnded cancelled gone.state
unfolding run handle handle_create create_state initial_state created_events create write
    append_events materialize load put get adopt_created run_created_receipt find_created
    run_created_receipt_of receipt_key handle_cancel cancel_next after_cancel Core.commit commit
    committed_events adopt_snapshot run_status_changed_event
gone-HasEnded = (refl, refl)

ended-final_example :
    HasEnded cancelled (run breaker verifier gone (budget_event limits ∷ cancel 2 ∷ [])).state
ended-final_example =
    ended-final breaker verifier gone (budget_event limits ∷ cancel 2 ∷ []) cancelled
      gone-IsCoherent (tt, (tt, tt)) gone-HasEnded

handle_cancel-Answers_example : Answers new_actor 1 (handle_cancel new_actor 1)
handle_cancel-Answers_example = handle_cancel-Answers new_actor 1

begun-state : begun.state ≡ some (initial_state "r1" "request")
unfolding run handle handle_create create_state initial_state created_events create write
    append_events materialize load put get adopt_created run_created_receipt find_created
    run_created_receipt_of receipt_key run_status_changed_event
begun-state = refl

abbrev late : List Message
late = execution_receipt "r1" a_dispatch none false ∷ []

run-IsSince_example : IsSince (initial_state "r1" "request") (run breaker verifier begun work).state
run-IsSince_example =
    run-IsSince breaker verifier begun work (initial_state "r1" "request") begun-IsCoherent
      (tt, (tt, (tt, (tt, (tt, tt))))) begun-state

late-cancelled :
    (handle_cancel (run breaker verifier begun late) (initial_state "r1" "request").version).1
    ≡ cancelled_state (cancel_next (initial_state "r1" "request"))
unfolding run handle handle_create create_state initial_state created_events create write
    append_events materialize load put get adopt_created run_created_receipt find_created
    run_created_receipt_of receipt_key handle_cancel cancel_next after_cancel Core.commit commit
    committed_events adopt_snapshot run_status_changed_event handle_execution finish_dispatch
late-cancelled = refl

cancel-exact_example : (run breaker verifier begun late).state ≡ some (initial_state "r1" "request")
cancel-exact_example =
    cancel-exact breaker verifier begun late (initial_state "r1" "request")
      (cancel_next (initial_state "r1" "request")) begun-IsCoherent (tt, tt) begun-state
      late-cancelled

abbrev verified_state : RunState
verified_state = record (run_state "r1") { status = verifying; version = 5 }

abbrev verifying_actor : RunActor
verifying_actor = record new_actor {
  state = some verified_state;
  store = record empty_store {
    snapshots = ("r1", record { state = verified_state; events = [] }) ∷ [];
  };
}

abbrev passed : Command
passed = verification (record { passed = true; result_sha256 = "d" })

abbrev verified_receipt : ActorPhaseReceipt
verified_receipt = record { run_id = "r1"; receipt_key = "verify:1"; event_sequence = 1 }

verified-answer :
    (handle_workflow_command verifying_actor "r1" "verify:1" passed).1
    ≡ phase_receipt verified_receipt
unfolding handle_workflow_command reduce_command commit_verification after_commit respond_receipt
    event_for_receipt actor_phase_receipt Core.commit commit committed_events adopt_snapshot
    run_status_changed_event write append_events materialize load put get
verified-answer = refl

command-repeats_example :
    handle_workflow_command
      (handle_workflow_command verifying_actor "r1" "verify:1" passed).0
      (handle_workflow_command verifying_actor "r1" "verify:1" passed).0.run_id
      "verify:1"
      passed
    ≡ (
      (handle_workflow_command verifying_actor "r1" "verify:1" passed).0,
      phase_receipt verified_receipt,
    )
command-repeats_example =
    command-repeats verifying_actor "r1" "verify:1" passed verified_receipt refl verified-answer

abbrev field_beq : Field → Field → Bool
field_beq (text s) (text t) = s == t
field_beq (texts xs) (texts ys) = xs == ys
field_beq (number i) (number j) = i == j
field_beq _ _ = false

field_beq_iff : (x y : Field) → (field_beq x y ≡ true) ↔ (x ≡ y)
field_beq_iff (text s) (text t) = ground (arith, string_eq.equals_iff s t)
field_beq_iff (texts xs) (texts ys) =
    let same : (xs == ys ≡ true) ↔ (xs ≡ ys) = list_eq.equals_iff xs ys in
    (λ h. ap texts (same.0 h), λ h. same.1 cc)
field_beq_iff (number i) (number j) = ground (arith, nat_eq.equals_iff i j)
field_beq_iff (text s) (texts ys) = ground arith
field_beq_iff (text s) (number j) = ground arith
field_beq_iff (texts xs) (text t) = ground arith
field_beq_iff (texts xs) (number j) = ground arith
field_beq_iff (number i) (text t) = ground arith
field_beq_iff (number i) (texts ys) = ground arith

instance abbrev field_eq : PyEq Field
field_eq = record { equals = field_beq; equals_iff = field_beq_iff }

-- A digest that is the payload itself.
abbrev as_digest : Payload → Option Payload
as_digest payload = some payload

abbrev stored : ActorCheckpoint Payload
stored = record {
  cursor = "n1";
  receipt_refs = "k1" ∷ [];
  candidate_index = 2;
  checksum =
      ("cursor", text "n1")
      ∷ ("receipt_refs", texts ("k1" ∷ []))
      ∷ ("candidate_index", number 2)
      ∷ [];
}

-- It was changed in the file.
abbrev tampered : ActorCheckpoint Payload
tampered = record stored { candidate_index = 3 }

as_digest-tells :
    (p q d : Payload)
    → as_digest p ≡ some d
    → as_digest q ≡ some d
    → (k : String) → get k p ≡ get k q
as_digest-tells p q d e f k = let same : p ≡ q = cc in ap (get k) same

restore-create_example : (restored as_digest tampered ≡ some tampered) ↔ (tampered ≡ stored)
unfolding Checkpoint.create checksum_of payload_of
restore-create_example =
    restore-create as_digest "n1" ("k1" ∷ []) 2 stored tampered as_digest-tells refl refl
