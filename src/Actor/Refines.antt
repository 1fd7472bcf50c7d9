-- ===== src/Actor/Refines.antt =====
-- runtime/actor.py: each handler makes one of the transitions, or keeps the state.
pub mod Inputs
mod Types
mod Judgement
pub mod Workflow
pub mod Integrations
mod Rounds
pub mod Handle
pub mod History
pub mod Final
pub mod Cancel
pub mod Replay
