-- ===== src/Capital/Create.antt =====
-- src/capital_intents/models.py, the validation of a new intent, and src/capital_intents/routes.py,
-- the rows that are written for it.
use options_protocol_backend.Prelude.{
  Bool, true, false, not, ◌&&◌, ◌||◌, Option, none, some, [], ◌∷◌, ◌++◌, if◌then◌else◌,
}
use options_protocol_backend.Prelude.Text.{Text, codes, truthy, lower, or_else}
use options_protocol_backend.Prelude.Int.{pos, leb_ℤ}
use options_protocol_backend.Exec.{raised, Result, ok, err}
use options_protocol_backend.Bridge.{Chain, arc, base, solana, chain_eq, Job, pending}
use options_protocol_backend.Bridge.Cctp.{python_int}
use options_protocol_backend.Capital.{CapitalIntentType, MovementReason, CapitalIntentStatus}

pub record CapitalIntentCreate : Type 0 where
  pub intent_type : CapitalIntentType
  pub movement_reason : Option MovementReason
  pub bucket_id : Option Text
  pub receiver : Option Text
  pub source_chain : Chain
  pub source_account : Text
  pub source_tx : Option Text
  pub destination_chain : Chain
  pub destination_account : Text
  pub destination_tx : Option Text
  pub amount_usdc : Text
  pub onchain_intent_id : Option Text
  pub status : Option CapitalIntentStatus
  pub idempotency_key : Option Text
  pub bridge_job_id : Option Text
  pub create_bridge_job : Bool
  pub user_id : Option Text
  pub quote_id : Option Text
  pub signed_trade_tx : Option Text

abbrev pub is_deposit : CapitalIntentType → Bool
is_deposit CapitalIntentType.deposit = true
is_deposit _ = false

-- Base or Solana
abbrev pub is_venue : Chain → Bool
is_venue arc = false
is_venue base = true
is_venue solana = true

unfoldable pub is_base_to_arc_deposit : CapitalIntentCreate → Bool
is_base_to_arc_deposit body =
    is_deposit body.intent_type
    && (chain_eq body.source_chain base && chain_eq body.destination_chain arc)

unfoldable pub is_base_solana_move : CapitalIntentCreate → Bool
is_base_solana_move body = is_venue body.source_chain && is_venue body.destination_chain

abbrev pub Check : Type 0
Check = Result (Unit {0})

infixl 10 ◌>>=◌ ◌>>◌
abbrev pub ◌>>=◌ : {A B : Type 0} → Result A → (A → Result B) → Result B
ok a >>= f = f a
err e >>= f = err e

abbrev pub ◌>>◌ : {A B : Type 0} → Result A → Result B → Result B
m >> n = m >>= λ _. n

-- `if b: raise ValueError(what)`
abbrev pub reject_if : Bool → Text → Check
reject_if b what = if b then err (raised what) else ok tt

unfoldable pub validate_bridge_job : CapitalIntentCreate → Check
unfolding is_base_to_arc_deposit is_base_solana_move
validate_bridge_job body = do
  reject_if (truthy body.bridge_job_id)
      (codes "bridge_job_id cannot be provided with create_bridge_job")
  reject_if (not (truthy body.user_id)) (codes "user_id is required when create_bridge_job=true")
  reject_if (not (truthy body.source_tx))
      (codes "source_tx is required when create_bridge_job=true")
  reject_if (not (is_base_solana_move body || is_base_to_arc_deposit body))
      (codes "create_bridge_job supports base<->solana moves and base->arc deposits")
  reject_if (is_base_to_arc_deposit body && not (truthy body.onchain_intent_id))
      (codes "onchain_intent_id is required for base->arc deposits")

unfoldable pub validate_intent : CapitalIntentCreate → Check
unfolding validate_bridge_job
validate_intent body = do
  reject_if (chain_eq body.source_chain body.destination_chain)
      (codes "source_chain and destination_chain must differ")
  amount ← python_int body.amount_usdc
  reject_if (leb_ℤ amount (pos 0)) (codes "amount_usdc must be greater than zero")
  reject_if (is_deposit body.intent_type && not (truthy body.receiver))
      (codes "receiver is required for deposit intents")
  if body.create_bridge_job then validate_bridge_job body else ok tt

-- `_default_reason`
abbrev pub default_reason : CapitalIntentType → MovementReason
default_reason CapitalIntentType.deposit = MovementReason.user_deposit
default_reason CapitalIntentType.returning = MovementReason.return_to_idle
default_reason CapitalIntentType.deployment = MovementReason.initial_deployment

-- `_default_status`
abbrev pub default_status : CapitalIntentType → CapitalIntentStatus
default_status CapitalIntentType.deposit = CapitalIntentStatus.deposit_received
default_status CapitalIntentType.returning = CapitalIntentStatus.returning_to_arc
default_status CapitalIntentType.deployment = CapitalIntentStatus.deployment_in_flight

abbrev pub quote_for_burn : CapitalIntentCreate → Option Text → Option Text → Option Text
quote_for_burn body (some (q ∷ qs)) (some (t ∷ ts)) =
    some ((q ∷ qs) ++ (codes ":" ++ lower (t ∷ ts)))
quote_for_burn body _ _ = or_else body.quote_id body.idempotency_key

-- `_bridge_job_quote_id`
unfoldable pub bridge_job_quote_id : CapitalIntentCreate → Option Text
unfolding is_base_to_arc_deposit lower
bridge_job_quote_id body =
    if is_base_to_arc_deposit body
    then if truthy body.idempotency_key
      then body.idempotency_key
      else quote_for_burn body body.quote_id body.source_tx
    else or_else body.quote_id body.idempotency_key

abbrev pub text_of : Option Text → Text
text_of none = []
text_of (some s) = s

-- The row of `_create_bridge_job`, once inserted under `id`. A `user_id` or a `source_tx` that is
-- missing does not get past the validation; here it is the empty text.
unfoldable pub bridge_job_row : Text → CapitalIntentCreate → Job
unfolding bridge_job_quote_id
bridge_job_row id body = record {
  id = id;
  user_id = text_of body.user_id;
  source_chain = body.source_chain;
  dest_chain = body.destination_chain;
  status = pending;
  burn_tx_hash = text_of body.source_tx;
  burn_amount = body.amount_usdc;
  mint_recipient = body.destination_account;
  quote_id = bridge_job_quote_id body;
  signed_trade_tx = body.signed_trade_tx;
  attestation_message = none;
  attestation_signature = none;
  mint_tx_hash = none;
  trade_tx_hash = none;
  arc_receive_tx_hash = none;
  arc_finalize_tx_hash = none;
  gross_amount_usdc = some body.amount_usdc;
  circle_fee_usdc = none;
  net_amount_usdc = none;
  receiver = body.receiver;
  error_message = none;
}

-- the guard and the row of `_create_bridge_job`
unfoldable pub create_bridge_job_row : Text → CapitalIntentCreate → Result Job
unfolding bridge_job_row is_base_to_arc_deposit is_base_solana_move
create_bridge_job_row id body =
    if not (is_base_solana_move body || is_base_to_arc_deposit body)
    then err (
        raised
          (codes "400: Bridge job creation supports base<->solana moves and base->arc deposits"))
    else ok (bridge_job_row id body)
