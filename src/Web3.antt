-- ===== src/Web3.antt =====
-- The service for the blockchain: tickets and signed transactions of
-- src/main/blockchain/web3-service.js.
pub mod Sending
mod Tests
