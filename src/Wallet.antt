-- ===== src/Wallet.antt =====
-- backend/internal/service/wallet: the life of an offline ceiling.
pub mod Types
pub mod Fund
pub mod Release
pub mod Recover
pub mod Balances
pub mod Passed
pub mod Conserved
pub mod Effects
pub mod Funded
pub mod Calls
pub mod Recovered
