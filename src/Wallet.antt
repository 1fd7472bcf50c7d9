-- ===== src/Wallet.antt =====
-- runtime/budget.py: the wallet that accounts the provider's usage of a run. The wallet's lock makes
-- each call one step.
pub mod Account
pub mod Receipts
mod Examples
