-- ===== src/TxHistory.antt =====
-- The transactions of the wallets, from the remote service:
-- src/main/blockchain/tx-history-service.js, and src/common/transaction-history/index.js.
pub mod Formats
pub mod Processing
pub mod Sync
pub mod Jobs
pub mod Store
mod Tests
