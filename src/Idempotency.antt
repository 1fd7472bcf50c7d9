-- ===== src/Idempotency.antt =====
-- api/idempotency.py: replay and conflict of API writes by principal, route and key.
pub mod Store
pub mod Replay
mod Examples
