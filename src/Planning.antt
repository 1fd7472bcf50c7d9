-- ===== src/Planning.antt =====
-- planning/validator.py: the check that a proposed plan passes before it is frozen.
pub mod Proposal
pub mod Paths
pub mod Edges
pub mod Graph
pub mod Scopes
pub mod Coverage
pub mod Artifacts
pub mod Validator
pub mod Accepted
pub mod Disjoint
pub mod Ranks
pub mod Covered
pub mod Limits
pub mod Targets
pub mod Rounds
pub mod Ripple
pub mod Closure
pub mod Dependents
pub mod Patterns
pub mod Retry
mod Examples
