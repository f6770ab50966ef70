-- ===== src/Bridge/Routes/Burns.antt =====
-- src/bridge/routes.py: the handler of requests for a job, and the submission of a burn on Solana
-- with its reservation.
use options_protocol_backend.Prelude.{
  Bool, true, false, ◌&&◌, Option, none, some, List, [], ◌∷◌, ◌++◌, any, take, if◌then◌else◌,
}
use options_protocol_backend.Prelude.Text.{Text, codes, text_eq}
use options_protocol_backend.Exec.{
  Exn, external, Result, ok, err, pure, raise, lift, try_except, ◌>>=◌, ◌>>◌,
}
use options_protocol_backend.Bridge.{
  Chain, base, solana, chain_eq, BridgeJobState, pending, attesting, minting, trading, failed,
  state_value, Job, BridgeFields, no_fields,
}
use options_protocol_backend.Store.{
  Env, World, Action, submitted, on_database, next_tick, answer, update_rows, update_job_row,
  str_exn, enqueue_job,
}
use options_protocol_backend.Bridge.Routes.{
  BridgeAndTradeRequest, http_error, masked, new_job, create_bridge_job,
}
use options_protocol_backend.Bridge.Routes.Checks.{
  Services, is_hex_of, validate_tx_hash, validate_bridge_chains,
}

pub record SolanaCctpBurnSubmitRequest : Type 0 where
  pub signed_transaction_base64 : Text
  pub dest_chain : Chain
  pub user_id : Text
  pub mint_recipient : Text
  pub burn_amount : Text
  pub quote_id : Option Text
  pub signed_trade_tx : Option Text

abbrev pub is_under_way : BridgeJobState → Bool
is_under_way pending = true
is_under_way attesting = true
is_under_way minting = true
is_under_way trading = true
is_under_way _ = false

-- a job from Solana that the user has under way, the first row
unfoldable pub find_active : Text → List Job → Option Job
find_active user [] = none
find_active user (j ∷ js) =
    let rest = find_active user js in
    if text_eq j.user_id user && (chain_eq j.source_chain solana && is_under_way j.status)
    then some j
    else rest

-- the row of a reservation, once inserted under `id`
abbrev pub reserved_job : SolanaCctpBurnSubmitRequest → Text → Text → Job
reserved_job body quote id =
    new_job id
      (record {
        user_id = body.user_id;
        source_chain = solana;
        dest_chain = body.dest_chain;
        burn_tx_hash = codes "pending:" ++ quote;
        burn_amount = body.burn_amount;
        mint_recipient = body.mint_recipient;
        quote_id = some quote;
        signed_trade_tx = body.signed_trade_tx;
      })
      body.signed_trade_tx

abbrev pub failed_fields : Text → BridgeFields
failed_fields message = record no_fields {
  status = some failed;
  error_message = some (some (take 500 message));
}

abbrev pub burned_fields : Text → BridgeFields
burned_fields tx = record no_fields { status = some pending; burn_tx_hash = some tx }

module _ (env : Env) (services : Services) where
  unfoldable pub select_active : Text → Action (Option Job)
  select_active user w =
      on_database
        (masked (http_error 502 (codes "Could not check active bridge jobs")) (env.database w.tick))
        (λ v. find_active user v.jobs) (λ v. v) w

  unfoldable pub insert_reservation : SolanaCctpBurnSubmitRequest → Text → Action Text
  insert_reservation body quote w =
      on_database
        (masked
          (http_error 409
            (codes "Bridge job already exists or could not be reserved for quote " ++ quote))
          (env.database w.tick))
        (λ v. env.new_id w.tick)
        (λ v. record v { jobs = v.jobs ++ reserved_job body quote (env.new_id w.tick) ∷ [] }) w

  abbrev pub reserve_unless : SolanaCctpBurnSubmitRequest → Text → Option Job → Action Text
  reserve_unless body quote none = insert_reservation body quote
  reserve_unless body quote (some j) = raise (
      http_error 409 (
        codes "Active Solana bridge job already exists (job "
        ++ (j.id ++ (codes ", status " ++ (state_value j.status ++ codes ")")))))

  abbrev pub reserve_quote : SolanaCctpBurnSubmitRequest → Option Text → Action Text
  reserve_quote body (some (c ∷ q)) = do
    active ← select_active body.user_id
    reserve_unless body (c ∷ q) active
  reserve_quote body _ =
      raise (http_error 400 (codes "quote_id is required for Solana CCTP burn submit idempotency"))

  -- `_create_solana_burn_reservation_or_raise`
  unfoldable pub create_solana_burn_reservation : SolanaCctpBurnSubmitRequest → Action Text
  unfolding select_active insert_reservation find_active
  create_solana_burn_reservation body = reserve_quote body body.quote_id

  -- `_mark_bridge_job_failed`
  unfoldable pub mark_bridge_job_failed : Text → Text → Action Unit
  mark_bridge_job_failed job_id message =
      try_except (update_job_row env job_id (failed_fields message)) (λ e. pure tt)

  abbrev pub finalized : Text → Text → Option Exn → Bool → World → Result (Unit {0}) × World
  finalized job_id tx (some e) found w = (err e, w)
  finalized job_id tx none true w =
      (ok tt, record w { jobs = update_rows job_id (burned_fields tx) w.jobs })
  finalized job_id tx none false w =
      (err (http_error 502 (codes "Bridge job finalize returned no data")), w)

  -- `_finalize_solana_burn_reservation_or_raise`
  unfoldable pub finalize_solana_burn_reservation : Text → Text → Action Unit
  finalize_solana_burn_reservation job_id tx w =
      finalized job_id tx
        (masked (http_error 502 (codes "Could not finalize bridge job")) (env.database w.tick))
        (any (λ j. text_eq j.id job_id) w.jobs) (next_tick w)

  -- `submit_solana_cctp_burn_transaction`, a signed transaction that is submitted on Solana
  unfoldable pub broadcast_burn : Text → Action Text
  broadcast_burn signed w =
      answer (services.broadcast w.tick signed)
        (λ tx v. record v { calls = submitted solana signed ∷ v.calls }) w

  abbrev pub refuse_burn : Text → Exn → Action (Text × Text)
  refuse_burn job_id (external m) = do
    mark_bridge_job_failed job_id (services.described (external m))
    raise (http_error 502 (codes "Could not submit Solana CCTP burn"))
  refuse_burn job_id e = do
    mark_bridge_job_failed job_id (str_exn env e)
    raise (http_error 400 (str_exn env e))

  -- what follows the broadcast, and a broadcast that failed
  abbrev pub after_broadcast : Text → Result Text → Action (Text × Text)
  after_broadcast job_id (ok tx) = do
    finalize_solana_burn_reservation job_id tx
    enqueue_job env job_id
    pure (tx, job_id)
  after_broadcast job_id (err e) = refuse_burn job_id e

  unfoldable pub broadcast_reserved : Text → Text → Action (Text × Text)
  unfolding finalize_solana_burn_reservation mark_bridge_job_failed broadcast_burn
  broadcast_reserved signed job_id w =
      after_broadcast job_id (broadcast_burn signed w).0 (broadcast_burn signed w).1

  abbrev pub submit_valid : SolanaCctpBurnSubmitRequest → Action (Text × Text)
  submit_valid body = do
    job_id ← create_solana_burn_reservation body
    broadcast_reserved body.signed_transaction_base64 job_id

  abbrev pub submit_to_address : SolanaCctpBurnSubmitRequest → Action (Text × Text)
  submit_to_address body =
      if is_hex_of 40 body.mint_recipient
      then submit_valid body
      else raise (http_error 400 (codes "mint_recipient must be a Base/EVM address"))

  abbrev pub submit_checked : SolanaCctpBurnSubmitRequest → Action (Text × Text)
  submit_checked body = do
    lift (validate_bridge_chains services solana body.dest_chain)
    submit_to_address body

  -- the handler `submit_solana_cctp_burn`: (burn_tx_hash, job_id)
  unfoldable pub submit_solana_cctp_burn : SolanaCctpBurnSubmitRequest → Action (Text × Text)
  unfolding create_solana_burn_reservation broadcast_reserved validate_bridge_chains is_hex_of
  submit_solana_cctp_burn body =
      if chain_eq body.dest_chain base
      then submit_checked body
      else raise
          (http_error 400 (codes "Solana CCTP burn submit currently supports dest_chain=base"))

  -- the handler `bridge_and_trade`: job_id
  unfoldable pub bridge_and_trade : (Text → Result Text) → BridgeAndTradeRequest → Action Text
  unfolding validate_bridge_chains validate_tx_hash create_bridge_job
  bridge_and_trade cosign body = do
    lift (validate_bridge_chains services body.source_chain body.dest_chain)
    lift (validate_tx_hash body.burn_tx_hash body.source_chain)
    create_bridge_job env cosign body
