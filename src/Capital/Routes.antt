-- ===== src/Capital/Routes.antt =====
-- src/capital_intents/routes.py: the creation of an intent, with its bridge job, and the reading of
-- one, which carries over the state of its bridge job.
use options_protocol_backend.Prelude.{
  Bool, true, false, not, ◌||◌, Option, none, some, ◌∷◌, if◌then◌else◌,
}
use options_protocol_backend.Prelude.Text.{Text, codes, truthy, or_else}
use options_protocol_backend.Exec.{pure, raise, ◌>>=◌, ◌>>◌}
use options_protocol_backend.Bridge.{Chain, solana, Job}
use options_protocol_backend.Bridge.Routes.{http_error}
use options_protocol_backend.Capital.{
  CapitalIntentType, CapitalIntentStatus, Intent, IntentFields, no_updates, status_eq, write_intent,
}
use options_protocol_backend.Capital.Create.{
  CapitalIntentCreate, is_base_to_arc_deposit, is_base_solana_move, default_reason, default_status,
  bridge_job_row,
}
use options_protocol_backend.Capital.Sync.{bridge_status_to_intent_status, has_updates, present}
use options_protocol_backend.Capital.Table.{
  find_intent, find_key, select_intents, insert_intent_row, update_intent, select_job,
  insert_job_row, require,
}
use options_protocol_backend.Store.{Env, Action, enqueue_job}

pub data UxStatus : Type 0 where
  deposit_received bridging waiting_to_be_deployed deployment_in_flight : UxStatus
  deployed_on_base deployed_on_solana premium_earned assigned_rotating : UxStatus
  returning_to_arc returned_to_usdc claimable_redeployable : UxStatus

abbrev deployed_on : Chain → UxStatus
deployed_on solana = UxStatus.deployed_on_solana
deployed_on _ = UxStatus.deployed_on_base

abbrev other_status : CapitalIntentType → UxStatus
other_status CapitalIntentType.deposit = UxStatus.deposit_received
other_status _ = UxStatus.waiting_to_be_deployed

-- The status of `_ux_status`, by the columns that it reads.
unfoldable pub ux_status : CapitalIntentStatus → CapitalIntentType → Chain → UxStatus
ux_status CapitalIntentStatus.deposit_received t c = UxStatus.deposit_received
ux_status CapitalIntentStatus.bridging t c = UxStatus.bridging
ux_status CapitalIntentStatus.waiting_to_be_deployed t c = UxStatus.waiting_to_be_deployed
ux_status CapitalIntentStatus.deployment_in_flight t c = UxStatus.deployment_in_flight
ux_status CapitalIntentStatus.deployed t c = deployed_on c
ux_status CapitalIntentStatus.premium_earned t c = UxStatus.premium_earned
ux_status CapitalIntentStatus.assigned_rotating t c = UxStatus.assigned_rotating
ux_status CapitalIntentStatus.returning_to_arc t c = UxStatus.returning_to_arc
ux_status CapitalIntentStatus.returned_to_usdc t c = UxStatus.returned_to_usdc
ux_status CapitalIntentStatus.claimable t c = UxStatus.claimable_redeployable
ux_status CapitalIntentStatus.completed t c = UxStatus.claimable_redeployable
ux_status CapitalIntentStatus.pending t c = other_status t
ux_status CapitalIntentStatus.failed t c = other_status t
ux_status CapitalIntentStatus.retryable t c = other_status t

abbrev pub Response : Type 0
Response = Intent × UxStatus

unfoldable pub to_response : Intent → Response
unfolding ux_status
to_response i = (i, ux_status i.status i.intent_type i.destination_chain)

-- `a or b`, where `a` is no text
abbrev either {ℓ} : {A : Type ℓ} → Option A → A → A
either none b = b
either (some a) b = a

-- The row of `_insert_intent`, once inserted under `id`; the columns that it does not name are null.
unfoldable pub intent_row :
    CapitalIntentCreate → Option Text → Option CapitalIntentStatus → Text → Intent
intent_row body bridge_job_id status_override id = record {
  id = id;
  intent_type = body.intent_type;
  movement_reason = either body.movement_reason (default_reason body.intent_type);
  bucket_id = body.bucket_id;
  receiver = body.receiver;
  source_chain = body.source_chain;
  source_account = some body.source_account;
  source_tx = body.source_tx;
  destination_chain = body.destination_chain;
  destination_account = some body.destination_account;
  destination_tx = body.destination_tx;
  amount_usdc = body.amount_usdc;
  onchain_intent_id = body.onchain_intent_id;
  status = either status_override (either body.status (default_status body.intent_type));
  bridge_job_id = or_else bridge_job_id body.bridge_job_id;
  selected_chain = none;
  arc_receive_tx_hash = none;
  arc_finalize_tx_hash = none;
  gross_amount_usdc = none;
  circle_fee_usdc = none;
  net_amount_usdc = none;
  idempotency_key = body.idempotency_key;
  failure_reason = none;
}

abbrev pub created_job : Text → IntentFields
created_job job_id = record no_updates {
  status = some CapitalIntentStatus.bridging;
  bridge_job_id = some job_id;
}

-- `updates` of `_sync_row_from_bridge`
unfoldable pub row_updates : Job → Intent → IntentFields
unfolding bridge_status_to_intent_status
row_updates bridge row =
    let next = bridge_status_to_intent_status bridge.status row.intent_type in
    record no_updates {
      status = if status_eq row.status next then none else some next;
      destination_tx = if truthy row.destination_tx then none else present bridge.mint_tx_hash;
      failure_reason =
          if truthy row.failure_reason || not (truthy bridge.error_message)
          then none
          else some bridge.error_message;
    }

abbrev pub updated_or : Intent → Option Intent → Intent
updated_or row none = row
updated_or row (some i) = i

module _ (env : Env) where
  -- `_read_existing_by_idempotency`
  unfoldable pub read_existing_by_idempotency : Text → Action (Option Intent)
  unfolding select_intents
  read_existing_by_idempotency key =
      select_intents env (http_error 502 (codes "Could not check capital intent idempotency"))
        (find_key key)

  -- `_insert_intent`
  unfoldable pub insert_intent :
      CapitalIntentCreate → Option Text → Option CapitalIntentStatus → Action Intent
  unfolding insert_intent_row intent_row
  insert_intent body bridge_job_id status_override =
      insert_intent_row env (http_error 502 (codes "Could not create capital movement intent"))
        (intent_row body bridge_job_id status_override)

  -- `_update_intent_fields`
  unfoldable pub update_intent_fields : Text → IntentFields → Action Intent
  unfolding update_intent
  update_intent_fields intent_id f = do
    updated ←
        update_intent env (http_error 502 (codes "Could not update capital movement intent"))
          intent_id f
    require (http_error 502 (codes "Capital intent update returned no data")) updated

  abbrev pub insert_bridge_job : CapitalIntentCreate → Action Text
  insert_bridge_job body = do
    job_id ←
        insert_job_row env
          (http_error 409
            (codes "Bridge job already exists or could not be created for this intent"))
          (λ id. bridge_job_row id body)
    enqueue_job env job_id
    pure job_id

  -- `_create_bridge_job`
  unfoldable pub create_bridge_job : CapitalIntentCreate → Action Text
  unfolding is_base_to_arc_deposit is_base_solana_move insert_job_row enqueue_job bridge_job_row
  create_bridge_job body =
      if not (is_base_solana_move body || is_base_to_arc_deposit body)
      then raise (
          http_error 400
            (codes "Bridge job creation supports base<->solana moves and base->arc deposits"))
      else insert_bridge_job body

  -- (the response, `bridge_job_created`)
  abbrev pub link_job : CapitalIntentCreate → Intent → Action (Response × Bool)
  link_job body row = do
    job_id ← create_bridge_job body
    linked ← update_intent_fields row.id (created_job job_id)
    pure (to_response linked, true)

  unfoldable pub create_new : CapitalIntentCreate → Action (Response × Bool)
  unfolding insert_intent create_bridge_job update_intent_fields to_response
  create_new body = do
    row ←
        insert_intent body none
          (if body.create_bridge_job then some CapitalIntentStatus.pending else none)
    if body.create_bridge_job then link_job body row else pure (to_response row, false)

  abbrev pub answer_existing : CapitalIntentCreate → Option Intent → Action (Response × Bool)
  answer_existing body none = create_new body
  answer_existing body (some i) = pure (to_response i, false)

  abbrev pub create_for_key : CapitalIntentCreate → Option Text → Action (Response × Bool)
  create_for_key body (some (c ∷ s)) = do
    existing ← read_existing_by_idempotency (c ∷ s)
    answer_existing body existing
  create_for_key body _ = create_new body

  -- the handler `create_capital_intent`
  unfoldable pub create_capital_intent : CapitalIntentCreate → Action (Response × Bool)
  unfolding read_existing_by_idempotency create_new
  create_capital_intent body = create_for_key body body.idempotency_key

  -- `_load_bridge_status`
  unfoldable pub load_bridge_status : Text → Action (Option Job)
  unfolding select_job
  load_bridge_status job_id =
      select_job env (http_error 502 (codes "Could not read linked bridge job")) job_id

  abbrev pub write_updates : Intent → IntentFields → Action Intent
  write_updates row f = do
    updated ←
        update_intent env (http_error 502 (codes "Could not sync capital intent status")) row.id f
    pure (updated_or (write_intent f row) updated)

  abbrev pub sync_with : Intent → Option Job → Action Intent
  sync_with row none = pure row
  sync_with row (some bridge) =
      if has_updates (row_updates bridge row)
      then write_updates row (row_updates bridge row)
      else pure row

  abbrev pub sync_linked : Intent → Option Text → Action Intent
  sync_linked row (some (c ∷ s)) = do bridge ← load_bridge_status (c ∷ s); sync_with row bridge
  sync_linked row _ = pure row

  -- `_sync_row_from_bridge`
  unfoldable pub sync_row_from_bridge : Intent → Action Intent
  unfolding load_bridge_status row_updates update_intent
  sync_row_from_bridge row = sync_linked row row.bridge_job_id

  -- the handler `get_capital_intent`
  unfoldable pub get_capital_intent : Text → Action Response
  unfolding select_intents sync_row_from_bridge to_response
  get_capital_intent intent_id = do
    found ←
        select_intents env (http_error 502 (codes "Could not read capital intent"))
          (find_intent intent_id)
    row ← require (http_error 404 (codes "Capital intent not found")) found
    synced ← sync_row_from_bridge row
    pure (to_response synced)
