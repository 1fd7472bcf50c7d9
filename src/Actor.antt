-- ===== src/Actor.antt =====
-- runtime/actor.py, runtime/contracts.py and runtime/store.py: the actor that owns a run, its
-- mailbox messages, and the store that it commits to.
pub mod Status
pub mod Events
pub mod State
pub mod AgentRuns
pub mod Intents
pub mod Store
pub mod Heads
pub mod Terminals
pub mod Advice
pub mod Core
pub mod Inputs
pub mod Dispatches
pub mod Budget
pub mod Judgement
pub mod Workflow
pub mod Integrations
pub mod Candidates
pub mod Rounds
pub mod Mailbox
pub mod Meaning
pub mod Ledger
pub mod LedgerReceipts
pub mod Redaction
pub mod Transition
pub mod Refines
pub mod Soundness
pub mod Checkpoint
mod Examples
