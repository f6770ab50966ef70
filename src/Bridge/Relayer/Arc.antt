-- ===== src/Bridge/Relayer/Arc.antt =====
-- src/bridge/relayer.py, `_process_arc_deposit_job`: a deposit into the vault on Arc is minted, and
-- then finalized for the amount that is left after Circle's fee.
use options_protocol_backend.Prelude.{not, ◌&&◌, Option, none, some, ◌∷◌, ◌++◌, if◌then◌else◌}
use options_protocol_backend.Prelude.Text.{Text, codes, truthy, or_else}
use options_protocol_backend.Prelude.Decimal.{str_int}
use options_protocol_backend.Exec.{raised, pure, raise, lift, ◌>>=◌, ◌>>◌}
use options_protocol_backend.Bridge.{
  arc, BridgeJobState, trading, mint_completed, Job, BridgeFields, no_fields,
}
use options_protocol_backend.Bridge.Cctp.{python_int, parse_cctp_v2_burn_amounts}
use options_protocol_backend.Bridge.Relayer.{
  awaits_mint, arc_finalize_tx, is_bytes32_hex, text_or, require_text, require_intent, update_job,
}
use options_protocol_backend.Store.{
  Env, Action, select_linked_intents, receive_message, finalize_deposit,
}

-- What the run knows of the mint: the transaction, and the three amounts.
pub record Receipt : Type 0 where
  pub mint_tx : Option Text
  pub gross : Option Text
  pub fee : Option Text
  pub net : Option Text

-- The update that records a finalized deposit.
abbrev pub finalized_fields : Text → BridgeFields
finalized_fields tx = record no_fields {
  status = some mint_completed;
  trade_tx_hash = some tx;
  arc_finalize_tx_hash = some tx;
  error_message = some none;
}

abbrev pub job_error : Text → Text → Text
job_error job_id what = codes "Job " ++ job_id ++ what

abbrev pub require_bytes32 : Text → Option Text → Action Text
require_bytes32 job_id none =
    raise (raised (job_error job_id (codes " linked intent requires bytes32 onchain_intent_id")))
require_bytes32 job_id (some s) =
    if is_bytes32_hex (some s)
    then pure s
    else raise
        (raised (job_error job_id (codes " linked intent requires bytes32 onchain_intent_id")))

module _ (env : Env) where
  -- the branch that mints
  unfoldable pub mint_on_arc : Text → Job → Text → Text → Action Receipt
  mint_on_arc job_id job message attestation = do
    (gross, fee, net) ← lift (parse_cctp_v2_burn_amounts message (some job.burn_amount))
    mint_tx ← receive_message env arc message attestation
    update_job env job_id (record no_fields {
      status = some trading;
      mint_tx_hash = some mint_tx;
      arc_receive_tx_hash = some mint_tx;
      gross_amount_usdc = some (str_int gross);
      circle_fee_usdc = some (str_int fee);
      net_amount_usdc = some (str_int net);
    })
    pure (record {
      mint_tx = some mint_tx;
      gross = some (str_int gross);
      fee = some (str_int fee);
      net = some (str_int net);
    })

  abbrev recorded : Job → Receipt
  recorded job = record {
    mint_tx = job.mint_tx_hash;
    gross = job.gross_amount_usdc;
    fee = job.circle_fee_usdc;
    net = job.net_amount_usdc;
  }

  unfoldable pub receive_on_arc : Text → Job → BridgeJobState → Text → Text → Action Receipt
  unfolding mint_on_arc
  receive_on_arc job_id job initial_status message attestation =
      if awaits_mint initial_status && not (truthy job.mint_tx_hash)
      then mint_on_arc job_id job message attestation
      else if truthy job.mint_tx_hash
      then pure (recorded job)
      else raise (raised (job_error job_id (codes " missing Arc receive tx for finalize retry")))

  unfoldable pub finalize_on_arc : Text → Job → Receipt → Action Unit
  finalize_on_arc job_id job receipt = do
    intents ← select_linked_intents env job_id
    intent ←
        require_intent intents
          (raised (job_error job_id (codes " has no linked capital movement intent")))
    let onchain_intent_id = or_else intent.onchain_intent_id intent.idempotency_key
    receiver ←
        require_text (or_else intent.receiver job.receiver)
          (raised (job_error job_id (codes " linked intent is missing receiver")))
    intent_id ← require_bytes32 job_id onchain_intent_id
    net ←
        require_text receipt.net
          (raised (job_error job_id (codes " missing net_amount_usdc for finalize")))
    amount ← lift (python_int net)
    finalize_tx ← finalize_deposit env intent_id receiver amount
    update_job env job_id (record (finalized_fields finalize_tx) {
      receiver = some receiver;
      net_amount_usdc = some net;
      circle_fee_usdc = some (text_or receipt.fee (codes "0"));
      gross_amount_usdc = some (text_or receipt.gross job.burn_amount);
    })

  unfoldable pub arc_deposit : Text → Job → BridgeJobState → Text → Text → Option Text → Action Unit
  unfolding receive_on_arc finalize_on_arc
  arc_deposit job_id job initial_status message attestation (some (c ∷ s)) =
      update_job env job_id (finalized_fields (c ∷ s))
  arc_deposit job_id job initial_status message attestation _ = do
    receipt ← receive_on_arc job_id job initial_status message attestation
    finalize_on_arc job_id job receipt

  -- The test for a recorded transaction comes first, so a retry does not finalize twice.
  unfoldable pub process_arc_deposit_job : Text → Job → BridgeJobState → Text → Text → Action Unit
  unfolding arc_deposit
  process_arc_deposit_job job_id job initial_status message attestation =
      arc_deposit job_id job initial_status message attestation (arc_finalize_tx job)
