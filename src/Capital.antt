-- ===== src/Capital.antt =====
-- src/capital_intents/models.py: the states of a capital movement intent and its row in the table
-- `capital_movement_intents`.
pub mod Sync
pub mod Create
pub mod Admission
pub mod Table
pub mod Routes
pub mod Reconcile
pub mod Keys
pub mod Rules
pub mod Keyed
pub mod Rotation
pub mod Reconciled
pub mod Once
pub mod Linked
pub mod Repeat
pub mod Due
pub mod OnRead
mod Tests
use options_protocol_backend.Prelude.{ℕ, Bool, Option, none, some, ◌==◌}
use options_protocol_backend.Prelude.Text.{Text}
use options_protocol_backend.Bridge.{Chain, keep_or, overlay}

pub data CapitalIntentType : Type 0 where
  deposit deployment returning : CapitalIntentType

pub data MovementReason : Type 0 where
  user_deposit initial_deployment rotation return_to_arc return_to_idle withdrawal : MovementReason

pub data CapitalIntentStatus : Type 0 where
  pending deposit_received bridging waiting_to_be_deployed deployment_in_flight :
      CapitalIntentStatus
  deployed premium_earned assigned_rotating returning_to_arc : CapitalIntentStatus
  returned_to_usdc claimable completed failed retryable : CapitalIntentStatus

abbrev pub index : CapitalIntentStatus → ℕ
index pending = 0
index deposit_received = 1
index bridging = 2
index waiting_to_be_deployed = 3
index deployment_in_flight = 4
index deployed = 5
index premium_earned = 6
index assigned_rotating = 7
index returning_to_arc = 8
index returned_to_usdc = 9
index claimable = 10
index completed = 11
index failed = 12
index retryable = 13

-- `==` of two statuses, by their place in the enumeration.
abbrev pub status_eq : CapitalIntentStatus → CapitalIntentStatus → Bool
status_eq a b = index a == index b

pub record Intent : Type 0 where
  pub id : Text
  pub intent_type : CapitalIntentType
  pub movement_reason : MovementReason
  pub bucket_id : Option Text
  pub receiver : Option Text
  pub source_chain : Chain
  pub source_account : Option Text
  pub source_tx : Option Text
  pub destination_chain : Chain
  pub destination_account : Option Text
  pub destination_tx : Option Text
  pub amount_usdc : Text
  pub onchain_intent_id : Option Text
  pub status : CapitalIntentStatus
  pub bridge_job_id : Option Text
  pub selected_chain : Option Chain
  pub arc_receive_tx_hash : Option Text
  pub arc_finalize_tx_hash : Option Text
  pub gross_amount_usdc : Option Text
  pub circle_fee_usdc : Option Text
  pub net_amount_usdc : Option Text
  pub idempotency_key : Option Text
  pub failure_reason : Option Text

-- The dictionary of an update: `none` where the key is missing. Only `failure_reason` is ever
-- written as `None`.
pub record IntentFields : Type 0 where
  pub status : Option CapitalIntentStatus
  pub bridge_job_id : Option Text
  pub destination_tx : Option Text
  pub arc_receive_tx_hash : Option Text
  pub arc_finalize_tx_hash : Option Text
  pub gross_amount_usdc : Option Text
  pub circle_fee_usdc : Option Text
  pub net_amount_usdc : Option Text
  pub failure_reason : Option (Option Text)

abbrev pub no_updates : IntentFields
no_updates = record {
  status = none;
  bridge_job_id = none;
  destination_tx = none;
  arc_receive_tx_hash = none;
  arc_finalize_tx_hash = none;
  gross_amount_usdc = none;
  circle_fee_usdc = none;
  net_amount_usdc = none;
  failure_reason = none;
}

abbrev pub write_intent : IntentFields → Intent → Intent
write_intent f i = record i {
  status = keep_or f.status i.status;
  bridge_job_id = overlay f.bridge_job_id i.bridge_job_id;
  destination_tx = overlay f.destination_tx i.destination_tx;
  arc_receive_tx_hash = overlay f.arc_receive_tx_hash i.arc_receive_tx_hash;
  arc_finalize_tx_hash = overlay f.arc_finalize_tx_hash i.arc_finalize_tx_hash;
  gross_amount_usdc = overlay f.gross_amount_usdc i.gross_amount_usdc;
  circle_fee_usdc = overlay f.circle_fee_usdc i.circle_fee_usdc;
  net_amount_usdc = overlay f.net_amount_usdc i.net_amount_usdc;
  failure_reason = keep_or f.failure_reason i.failure_reason;
}
