-- ===== src/Indexer.antt =====
-- src/bots/event_indexer.py: the events of the settlement contract, the table `order_events` and
-- the state of the indexer. The column `collateral_usd`, a float taken from spot prices, is left out.
pub mod Events
pub mod Deliveries
pub mod Cycle
pub mod Keeps
pub mod Progress
pub mod Scan
pub mod Moves
pub mod Coverage
pub mod Subscription
mod Tests
use options_protocol_backend.Prelude.{ℕ, min, Bool, Option, none, some, List, ◌∷◌}
use options_protocol_backend.Prelude.Text.{Text}
use options_protocol_backend.Exec.{Exn, Result, Exec}

-- A decoded `OrderExecuted` log.
pub record OrderLog : Type 0 where
  pub transaction_hash : Text
  pub block_number : ℕ
  pub log_index : ℕ
  pub user : Text
  pub mm : Text
  pub otoken : Text
  pub amount : ℕ
  pub gross_premium : ℕ
  pub net_premium : ℕ
  pub fee : ℕ
  pub collateral : ℕ
  pub vault_id : ℕ

-- A decoded `PhysicalDelivery` log.
pub record DeliveryLog : Type 0 where
  pub transaction_hash : Text
  pub block_number : ℕ
  pub user : Text
  pub otoken : Text
  pub contra_amount : ℕ

-- What `_load_otoken_metadata` returns. The dictionary may hold `None`.
pub record Metadata : Type 0 where
  pub strike_price : Option Text
  pub expiry : Option ℕ
  pub is_put : Option Bool
  pub asset : Text
  pub underlying : Option Text

pub record OrderEvent : Type 0 where
  pub tx_hash : Text
  pub block_number : ℕ
  pub log_index : ℕ
  pub user_address : Text
  pub mm_address : Text
  pub otoken_address : Text
  pub amount : Text
  pub premium : Text
  pub gross_premium : Text
  pub net_premium : Text
  pub protocol_fee : Text
  pub collateral : Text
  pub vault_id : ℕ
  pub strike_price : Option Text
  pub expiry : Option ℕ
  pub is_put : Option Bool
  pub asset : Option Text

pub record Delivery : Type 0 where
  pub user_address : Text
  pub otoken_address : Text
  pub delivered_asset : Text
  pub delivered_amount : Text
  pub delivery_tx_hash : Text

-- A row of `order_events`. Its `tx_hash` is unique, and stands for the `id` too. A row with a
-- delivery has `settlement_type` "physical" and `is_itm` true.
pub record Row : Type 0 where
  pub event : OrderEvent
  pub delivery : Option Delivery

pub record Indexer : Type 0 where
  pub order_events : List Row
  pub last_indexed_block : ℕ
  pub pending_failure_block : Option ℕ
  pub notified : List OrderEvent

-- How the database answers an upsert.
pub data Answer : Type 0 where
  written : Answer
  no_data : Answer
  broken : Exn → Answer

-- What the node and the database answer in one pass over a range of blocks.
pub record Pass : Type 0 where
  pub order_logs : ℕ → ℕ → Result (List OrderLog)
  pub delivery_logs : ℕ → ℕ → Result (List DeliveryLog)
  pub order_metadata : OrderLog → Option Metadata
  pub delivery_metadata : DeliveryLog → Option Metadata
  pub upsert : List OrderEvent → Answer
  pub delivery_update : Delivery → Option Exn
  pub cursor_read : Option Exn
  pub cursor_update : ℕ → Option Exn

-- The addresses of src/config.py.
pub record Addresses : Type 0 where
  pub wbtc_address : Text
  pub weth_address : Text
  pub usdc_address : Text

abbrev pub Action : Type 0 → Type 0
Action A = Exec Indexer A

-- The smaller of a block and the failed block on record, if any.
abbrev pub lower_block : Option ℕ → ℕ → ℕ
lower_block none b = b
lower_block (some f) b = min b f

-- One round of a scan of logs, which goes on with `rest`: an event that failed lowers the failed
-- block, and after a failure no event is kept.
abbrev pub keep_event :
    {E : Type 0} → Option E → Option ℕ → ℕ → (Option ℕ → List E × Option ℕ) → List E × Option ℕ
keep_event none failed block rest = rest (some (lower_block failed block))
keep_event (some e) (some f) block rest = rest (some f)
keep_event (some e) none block rest = (e ∷ (rest none).0, (rest none).1)
