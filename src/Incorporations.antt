-- ===== src/Incorporations.antt =====
-- The incorporations that a user can choose from: src/common/incorporations.
pub mod State
pub mod Selectors
pub mod Operations
pub mod Service
mod Tests
