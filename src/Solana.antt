-- ===== src/Solana.antt =====
-- src/bots/solana_expiry_settler.py: the settlement of expired options on Solana.
pub mod Quoted
pub mod State
pub mod Amounts
pub mod Prices
pub mod Vaults
pub mod Redeem
pub mod Cycle
pub mod Rules
pub mod Moneyness
pub mod Identified
pub mod Redeemed
pub mod Pyth
mod Tests
