-- ===== src/Identity.antt =====
-- The identity part of the store: src/common/identity/{reducers,selectors,operations}.js, with the
-- entities of src/main/identity.
pub mod State
pub mod Reducers
pub mod Selectors
pub mod Operations
pub mod Reloading
pub mod Wallets
pub mod Lock
mod Tests
