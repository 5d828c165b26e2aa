-- ===== src/Kyc.antt =====
-- Relying parties and KYC applications: src/common/kyc/index.js, and the session with a relying
-- party of src/main/platform/relying-party.js.
pub mod State
pub mod Reducers
pub mod Session
pub mod Selectors
pub mod Operations
pub mod Parties
mod Tests
