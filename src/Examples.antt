-- ===== src/Examples.antt =====
-- Aggregates of the repository's examples.
pub mod Ledger
pub mod Fixtures
pub mod Accounts
pub mod Counter
pub mod Outbox
pub mod Shipping
mod Tests
