-- ===== src/Capital/Reconcile/Rows.antt =====
-- src/capital_intents/reconcile.py: the rows that the pass reads, and those that it writes.
use options_protocol_backend.Prelude.{
  ℕ, Bool, false, ◌&&◌, ◌||◌, Option, none, some, List, ◌++◌, take, filter, if◌then◌else◌,
}
use options_protocol_backend.Prelude.Text.{Text, codes, text_eq, truthy, or_else}
use options_protocol_backend.Prelude.Int.{ℤ, pos, leb_ℤ}
use options_protocol_backend.Prelude.Decimal.{parse_int, str_int}
use options_protocol_backend.Bridge.{Chain, arc, base, solana}
use options_protocol_backend.Capital.{
  CapitalIntentType, MovementReason, CapitalIntentStatus, Intent, IntentFields, no_updates,
  status_eq,
}
use options_protocol_backend.Capital.Create.{is_venue}

-- The columns of `order_events` that the pass reads.
pub record OrderEvent : Type 0 where
  pub tx_hash : Option Text
  pub user_address : Option Text
  pub chain : Option Chain
  pub collateral : Option Text
  pub is_settled : Option Bool
  pub settled_at : Option Text
  pub settlement_tx_hash : Option Text
  pub settlement_type : Option Text
  pub is_itm : Option Bool

-- The accounts of src/config.py that hold the positions.
pub record Accounts : Type 0 where
  pub base_sepolia_vault_adapter : Option Text
  pub solana_devnet_vault_token_account : Option Text

pub record ReconcileSummary : Type 0 where
  pub inspected : ℕ
  pub skipped_unsettled : ℕ
  pub waiting_created : ℕ
  pub already_reconciled : ℕ
  pub assigned : ℕ
  pub retryable : ℕ

-- `o is True`
abbrev is_true : Option Bool → Bool
is_true none = false
is_true (some b) = b

abbrev is_text : Option Text → Text → Bool
is_text none s = false
is_text (some t) s = text_eq t s

unfoldable pub is_settled : OrderEvent → Bool
is_settled e = is_true e.is_settled || (truthy e.settled_at || truthy e.settlement_tx_hash)

unfoldable pub is_assigned : OrderEvent → Bool
is_assigned e = is_true e.is_itm || is_text e.settlement_type (codes "physical")

abbrev pub has_failed : OrderEvent → Bool
has_failed e = is_text e.settlement_type (codes "physical_failed")

-- a text as an f-string shows it
abbrev pub shown : Option Text → Text
shown none = codes "None"
shown (some s) = s

unfoldable pub rotation_idempotency_key : Intent → OrderEvent → Text
rotation_idempotency_key intent event =
    codes "rotation:"
    ++ (intent.id ++ (codes ":" ++ shown (or_else event.tx_hash intent.destination_tx)))

abbrev when_positive : Option ℤ → Option ℤ
when_positive none = none
when_positive (some n) = if leb_ℤ n (pos 0) then none else some n

-- `_positive_raw_amount`
abbrev pub positive_raw_amount : Option Text → Option ℤ
positive_raw_amount none = none
positive_raw_amount (some s) = when_positive (parse_int s)

abbrev chain_or : Option Chain → Chain → Chain
chain_or none c = c
chain_or (some c) d = c

-- `_venue_account`
unfoldable pub venue_account : Accounts → Chain → OrderEvent → Intent → Option Text
venue_account accounts base event intent =
    or_else accounts.base_sepolia_vault_adapter
      (or_else event.user_address (or_else intent.destination_account intent.source_account))
venue_account accounts solana event intent =
    or_else accounts.solana_devnet_vault_token_account
      (or_else event.user_address (or_else intent.destination_account intent.source_account))
venue_account accounts arc event intent = or_else event.user_address intent.destination_account

-- the row, once inserted under `id`
unfoldable pub rotation_intent : Accounts → Intent → OrderEvent → Text → Chain → ℤ → Text → Intent
unfolding venue_account
rotation_intent accounts intent event key chain amount id =
    let source_account = venue_account accounts chain event intent in
    record {
      id = id;
      intent_type = CapitalIntentType.deployment;
      movement_reason = MovementReason.rotation;
      bucket_id = intent.bucket_id;
      receiver = intent.receiver;
      source_chain = chain;
      source_account = source_account;
      source_tx = or_else event.settlement_tx_hash event.tx_hash;
      destination_chain = arc;
      destination_account = or_else intent.destination_account source_account;
      destination_tx = none;
      amount_usdc = str_int amount;
      onchain_intent_id = none;
      status = CapitalIntentStatus.waiting_to_be_deployed;
      bridge_job_id = none;
      selected_chain = none;
      arc_receive_tx_hash = none;
      arc_finalize_tx_hash = none;
      gross_amount_usdc = none;
      circle_fee_usdc = none;
      net_amount_usdc = none;
      idempotency_key = some key;
      failure_reason = none;
    }

abbrev pub rotation_chain : Intent → OrderEvent → Chain
rotation_chain intent event =
    chain_or event.chain (chain_or intent.selected_chain intent.destination_chain)

abbrev pub rotation_of :
    Accounts → Intent → OrderEvent → Text → Chain → Option ℤ → Option (Text → Intent)
rotation_of accounts intent event key chain none = none
rotation_of accounts intent event key chain (some amount) =
    if is_venue chain then some (rotation_intent accounts intent event key chain amount) else none

-- `_rotation_row`, a row that waits for its id
unfoldable pub rotation_row : Accounts → Intent → OrderEvent → Text → Option (Text → Intent)
unfolding rotation_intent
rotation_row accounts intent event key =
    rotation_of accounts intent event key (rotation_chain intent event)
      (positive_raw_amount event.collateral)

abbrev pub is_deployed_on_venue : Intent → Bool
is_deployed_on_venue i =
    truthy i.destination_tx && is_venue (chain_or i.selected_chain i.destination_chain)

-- `select("*").eq("status", "deployed").limit(limit)`, and the filter on its rows
unfoldable pub deployed_intents : ℕ → List Intent → List Intent
deployed_intents limit is =
    filter is_deployed_on_venue
      (take limit (filter (λ i. status_eq i.status CapitalIntentStatus.deployed) is))

abbrev pub settled_fields : CapitalIntentStatus → Option Text → IntentFields
settled_fields status none = record no_updates { status = some status }
settled_fields status (some reason) = record no_updates {
  status = some status;
  failure_reason = some (some reason);
}
