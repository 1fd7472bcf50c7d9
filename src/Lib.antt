-- ===== src/Lib.antt =====
-- CodeMigrator: the decisions that a migration run rests on.
--
-- CodeMigrator migrates a source project to another language. A planner proposes slices, each with
-- a write scope, edges between slices and integration ranks; the plan is checked and frozen; slices
-- are dispatched, written by agents in workspaces, verified, and integrated one after the other.
-- This library models the parts of that path that decide: what plan is accepted, which slice runs
-- next, what is integrated when, where a failure goes, and what a run may still spend.
--
-- Parts and files:
-- - Base: Python's tests, lists, sets, dictionaries and texts. A dictionary is an association list
--   with each key once; a set is a list that is read through membership only; a text that the code
--   takes apart is a list of code points, any other an opaque string.
-- - Planning models src/codemigrator/planning/validator.py with the matching of scope patterns in
--   src/codemigrator/core/scope.py and the proposal of src/codemigrator/core/models/plan.py:
--   Planning/Proposal the data, Planning/Paths `scope_includes_path`,
--   Planning/Patterns the validation and containment of scope patterns, Planning/Edges, Planning/Graph,
--   Planning/Scopes, Planning/Coverage and Planning/Artifacts the functions `_validate_...` and
--   `_has_cycle`, Planning/Validator `PlanValidator.validate`. Planning/Accepted, Planning/Disjoint,
--   Planning/Ranks, Planning/Covered, Planning/Targets and Planning/Limits are about accepted plans,
--   Planning/Rounds about the topological sort. Planning/Retry models the loop of
--   src/codemigrator/planning/retry.py that asks the planner again, with the second validation of
--   `PlanLedger.freeze` of src/codemigrator/planning/validator.py, Planning/Ripple
--   `_reverse_import_closure` of src/codemigrator/planning/ripple.py, about which Planning/Closure and
--   Planning/Dependents are.
-- - Scheduler models src/codemigrator/runtime/scheduler.py: Scheduler/Slices the data and
--   `_scopes_overlap`, Scheduler/Methods the methods of `FairScheduler` that report outcomes,
--   Scheduler/Next its `next`. A call is a step on the scheduler's state.
-- - Integration models src/codemigrator/runtime/integration.py, the queue that integrates verified
--   slices one at a time in the order of their submission. A call is a step on the coordinator's state.
-- - Verification models src/codemigrator/verification/routing.py: Verification/Routing the route of
--   a failure and the repair budget, Verification/Conservation the structural evidence and parity.
-- - Wallet models src/codemigrator/runtime/budget.py, the usage that a run is charged for.
-- - Idempotency models src/codemigrator/api/idempotency.py, the replay of API writes.
--
-- - Actor models src/codemigrator/runtime/actor.py with the messages and the state of
--   src/codemigrator/runtime/contracts.py, and what it needs of the store, of advice and of recovery:
--   Actor/Status, Actor/Events, Actor/State and Actor/AgentRuns the data; Actor/Store, Actor/Terminals,
--   Actor/Intents and Actor/Heads `InMemoryRuntimeStore` of src/codemigrator/runtime/store.py;
--   Actor/Core the fields of `RunActor` and `_commit`; Actor/Inputs, Actor/Dispatches, Actor/Budget and
--   Actor/Judgement the handlers `_handle_...` of messages; Actor/Workflow, Actor/Integrations,
--   Actor/Candidates and Actor/Rounds the workflow commands; Actor/Mailbox `_handle` and the mailbox;
--   Actor/Advice src/codemigrator/runtime/advice.py, Actor/Checkpoint the cursor checkpoints of
--   src/codemigrator/runtime/recovery.py. A handler takes the actor to the actor that it leaves and
--   a response. Actor/Meaning says for each kind of message which states it changes, to which state and
--   with which events; Actor/Transition has the changes of a run's state whatever the message, and the
--   step of an actor that the handlers are compared with, Actor/Soundness what it keeps; Actor/Ledger, Actor/LedgerReceipts and Actor/Redaction are
--   about the log that a commit writes, Actor/Refines about the handlers and the mailbox.
--
-- The actor calls the wallet's evaluation of a budget event and, when a run is cancelled, the
-- integration coordinator. The plan of Planning gives the scheduler its slices and the coordinator its ranks; the write
-- scopes that the validator keeps apart are those that the scheduler reserves; a failure that the
-- coordinator reports takes its route in Verification.
--
-- Bounds and fuel: counts, generations and amounts are natural numbers where the code refuses
-- negative ones; ranks are integers. The scheduler's search is by recursion on the number of runs,
-- as the source's loop is; the retry loop is by recursion on the retries that are left. The
-- topological sort of `_has_cycle` is given as many rounds as there are slices, which is enough:
-- each slice enters its queue at most once. The closure of modules is given a round for each seed
-- and each listed dependent, which is enough.
--
-- Parameters: `re.search` on layout principles, digests, sorting by the text of an identifier, the
-- floating-point quotients of counts with their order, the planner, the validators that the
-- retry loop and the plan ledger call and the building of the stored plan, the instants of the clock; of the
-- actor: its ports, each a function of the state at the call that answers the exception it raises, the
-- verifier of candidate checkpoints, and the redaction of event data. Two things are assumed of the
-- actor's messages where a theorem says that they are admissible: an agent run is ended by one command
-- only, and the redaction leaves the keys of receipts as they are.
--
-- Not modelled: the hash and new identifiers of `PlanLedger.freeze`; the registry of actors, the tasks
-- that an actor starts and stops, and the PostgreSQL store; database, git, container and
-- language-model calls; HTTP routes, event streams and drafts; analysis of source text; the web
-- front end, the command line and the deployment files.
pub mod Base
pub mod Actor
pub mod Planning
pub mod Scheduler
pub mod Integration
pub mod Verification
pub mod Wallet
pub mod Idempotency
