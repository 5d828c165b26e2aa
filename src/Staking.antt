-- ===== src/Staking.antt =====
-- Staking against the contracts of the blockchain: src/main/blockchain/staking-service.js.
pub mod Chain
pub mod Contracts
pub mod Service
pub mod Config
pub mod Holder
pub mod Allowance
mod Tests
