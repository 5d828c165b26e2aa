-- ===== src/Transactions.antt =====
-- The transaction that a user sends: src/common/transaction/{operations,reducers,actions,selectors}.js.
pub mod State
pub mod Operations
pub mod Sending
mod Tests
