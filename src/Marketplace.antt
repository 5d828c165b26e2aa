-- ===== src/Marketplace.antt =====
-- The marketplace: src/common/marketplaces/{reducers,selectors,operations,actions}.js and
-- src/main/marketplace/marketplace-service.js.
pub mod State
pub mod Reducers
pub mod Selectors
pub mod Status
pub mod Operations
pub mod Service
mod Tests
