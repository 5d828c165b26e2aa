-- ===== src/App.antt =====
-- The state of the application and the unlocking of wallets: src/common/app/index.js.
pub mod State
pub mod Operations
pub mod Hardware
mod Tests
