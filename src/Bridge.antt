-- ===== src/Bridge.antt =====
-- src/bridge/models.py: the states of a bridge job and its row in the table `bridge_jobs`, with the
-- partial row that an update writes. The string enumerations are data types here.
pub mod Cctp
pub mod Relayer
pub mod Routes
mod Tests
use options_protocol_backend.Prelude.{ℕ, Bool, true, false, Option, none, some}
use options_protocol_backend.Prelude.Text.{Text, codes}

-- The three string enumerations of chains hold the same values.
pub data Chain : Type 0 where
  arc base solana : Chain

abbrev pub chain_eq : Chain → Chain → Bool
chain_eq arc arc = true
chain_eq base base = true
chain_eq solana solana = true
chain_eq _ _ = false

pub data BridgeJobState : Type 0 where
  pending attesting minting trading completed mint_completed failed : BridgeJobState
  mint_completed_trade_failed : BridgeJobState

abbrev pub state_value : BridgeJobState → Text
state_value pending = codes "pending"
state_value attesting = codes "attesting"
state_value minting = codes "minting"
state_value trading = codes "trading"
state_value completed = codes "completed"
state_value mint_completed = codes "mint_completed"
state_value failed = codes "failed"
state_value mint_completed_trade_failed = codes "mint_completed_trade_failed"

pub record Job : Type 0 where
  pub id : Text
  pub user_id : Text
  pub source_chain : Chain
  pub dest_chain : Chain
  pub status : BridgeJobState
  pub burn_tx_hash : Text
  pub burn_amount : Text
  pub mint_recipient : Text
  pub quote_id : Option Text
  pub signed_trade_tx : Option Text
  pub attestation_message : Option Text
  pub attestation_signature : Option Text
  pub mint_tx_hash : Option Text
  pub trade_tx_hash : Option Text
  pub arc_receive_tx_hash : Option Text
  pub arc_finalize_tx_hash : Option Text
  pub gross_amount_usdc : Option Text
  pub circle_fee_usdc : Option Text
  pub net_amount_usdc : Option Text
  pub receiver : Option Text
  pub error_message : Option Text

-- The dictionary handed to an update: `none` where the key is missing. Only `error_message` is
-- ever written as `None`. The time stamp `updated_at` is left out.
pub record BridgeFields : Type 0 where
  pub status : Option BridgeJobState
  pub burn_tx_hash : Option Text
  pub burn_amount : Option Text
  pub mint_recipient : Option Text
  pub signed_trade_tx : Option (Option Text)
  pub attestation_message : Option Text
  pub attestation_signature : Option Text
  pub mint_tx_hash : Option Text
  pub trade_tx_hash : Option Text
  pub arc_receive_tx_hash : Option Text
  pub arc_finalize_tx_hash : Option Text
  pub gross_amount_usdc : Option Text
  pub circle_fee_usdc : Option Text
  pub net_amount_usdc : Option Text
  pub receiver : Option Text
  pub error_message : Option (Option Text)

abbrev pub no_fields : BridgeFields
no_fields = record {
  status = none;
  burn_tx_hash = none;
  burn_amount = none;
  mint_recipient = none;
  signed_trade_tx = none;
  attestation_message = none;
  attestation_signature = none;
  mint_tx_hash = none;
  trade_tx_hash = none;
  arc_receive_tx_hash = none;
  arc_finalize_tx_hash = none;
  gross_amount_usdc = none;
  circle_fee_usdc = none;
  net_amount_usdc = none;
  receiver = none;
  error_message = none;
}

-- A column that must hold a value, a nullable column, and a nullable column that may be cleared.
abbrev pub keep_or {ℓ} : {A : Type ℓ} → Option A → A → A
keep_or none old = old
keep_or (some v) old = v

abbrev pub overlay {ℓ} : {A : Type ℓ} → Option A → Option A → Option A
overlay none old = old
overlay (some v) old = some v

abbrev pub write_fields : BridgeFields → Job → Job
write_fields f j = record j {
  status = keep_or f.status j.status;
  burn_tx_hash = keep_or f.burn_tx_hash j.burn_tx_hash;
  burn_amount = keep_or f.burn_amount j.burn_amount;
  mint_recipient = keep_or f.mint_recipient j.mint_recipient;
  signed_trade_tx = keep_or f.signed_trade_tx j.signed_trade_tx;
  attestation_message = overlay f.attestation_message j.attestation_message;
  attestation_signature = overlay f.attestation_signature j.attestation_signature;
  mint_tx_hash = overlay f.mint_tx_hash j.mint_tx_hash;
  trade_tx_hash = overlay f.trade_tx_hash j.trade_tx_hash;
  arc_receive_tx_hash = overlay f.arc_receive_tx_hash j.arc_receive_tx_hash;
  arc_finalize_tx_hash = overlay f.arc_finalize_tx_hash j.arc_finalize_tx_hash;
  gross_amount_usdc = overlay f.gross_amount_usdc j.gross_amount_usdc;
  circle_fee_usdc = overlay f.circle_fee_usdc j.circle_fee_usdc;
  net_amount_usdc = overlay f.net_amount_usdc j.net_amount_usdc;
  receiver = overlay f.receiver j.receiver;
  error_message = keep_or f.error_message j.error_message;
}
