-- ===== src/Wallet.antt =====
-- The wallet in the store and the service that unlocks wallets:
-- src/common/wallet/{operations,reducers,actions,selectors}.js and src/main/wallet/wallet-service.js.
pub mod Store
pub mod Replacing
pub mod Service
mod Tests
