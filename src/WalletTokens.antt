-- ===== src/WalletTokens.antt =====
-- The tokens of the wallet: src/common/wallet-tokens/{operations,reducers,actions,selectors}.js and the
-- reducer of src/common/view-all-tokens.
pub mod State
pub mod Operations
mod Tests
