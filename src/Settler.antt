-- ===== src/Settler.antt =====
-- src/bots/expiry_settler.py: which expired positions are in the money, and the amounts that a
-- physical settlement asks for.
pub mod Amounts
pub mod Bounds
pub mod Moneyness
pub mod Partition
pub mod State
pub mod Delivery
pub mod Batches
pub mod Cycle
pub mod Steps
pub mod Retries
pub mod Confirmed
pub mod Safety
mod Tests
use options_protocol_backend.Prelude.{ℕ, Bool, Option}
use options_protocol_backend.Prelude.Text.{Text}
use options_protocol_backend.Prelude.Int.{ℤ}

-- A row of `order_events` as the settlement reads it, its numerals after `int`. `underlying` and
-- `decimals` are those of the asset's entry in src/pricing/assets.py, ETH where it has none.
pub record Position : Type 0 where
  pub user_address : Text
  pub vault_id : ℕ
  pub otoken_address : Text
  pub mm_address : Option Text
  pub amount : ℤ
  pub strike_price : ℤ
  pub is_put : Bool
  pub expiry : ℕ
  pub underlying : Text
  pub decimals : ℕ

-- `swap_slippage_bps` is `int(settings.swap_slippage_tolerance * 10_000)`, taken from a float.
pub record Settings : Type 0 where
  pub beta_mode : Bool
  pub swap_slippage_bps : ℕ
