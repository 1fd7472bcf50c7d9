-- ===== src/Verification.antt =====
-- verification/routing.py: the route that a failed check takes to its repair, the budget of repair
-- attempts, and the structural evidence that verification reports.
pub mod Routing
pub mod Conservation
pub mod Routes
pub mod Attempts
pub mod Exhaustion
pub mod Signals
mod Examples
