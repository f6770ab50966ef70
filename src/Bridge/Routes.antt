-- ===== src/Bridge/Routes.antt =====
-- src/bridge/routes.py: how a request becomes a bridge job. An `HTTPException` is the exception
-- whose text is its status and its detail.
pub mod Dedup
pub mod Checks
pub mod Burns
pub mod Reserved
pub mod Repeated
use options_protocol_backend.Prelude.{
  ℕ, Bool, true, false, not, ◌&&◌, ◌||◌, Option, none, some, List, [], ◌∷◌, ◌++◌, any, take,
  if◌then◌else◌,
}
use options_protocol_backend.Prelude.Text.{Text, codes, text_eq, starts_with, truthy}
use options_protocol_backend.Prelude.Decimal.{str_nat}
use options_protocol_backend.Exec.{
  Exn, raised, invalid_int, invalid_hex, external, Result, ok, err, pure, raise, lift, ◌>>=◌, ◌>>◌,
}
use options_protocol_backend.Bridge.{
  Chain, solana, chain_eq, BridgeJobState, pending, Job, BridgeFields, no_fields,
}
use options_protocol_backend.Store.{
  Env, World, Action, on_database, next_tick, column_eq, update_rows, enqueue_job,
}

pub record BridgeAndTradeRequest : Type 0 where
  pub user_id : Text
  pub source_chain : Chain
  pub dest_chain : Chain
  pub burn_tx_hash : Text
  pub burn_amount : Text
  pub mint_recipient : Text
  pub quote_id : Option Text
  pub signed_trade_tx : Option Text

abbrev pub http_error : ℕ → Text → Exn
http_error status detail = raised (str_nat status ++ (codes ": " ++ detail))

-- `.eq("burn_tx_hash", tx)`, the first row
unfoldable pub find_burn : Text → List Job → Option Job
find_burn tx [] = none
find_burn tx (j ∷ js) =
    let rest = find_burn tx js in if text_eq j.burn_tx_hash tx then some j else rest

-- `.eq("quote_id", quote)`, the first row
unfoldable pub find_quote : Text → List Job → Option Job
find_quote q [] = none
find_quote q (j ∷ js) =
    let rest = find_quote q js in if column_eq j.quote_id q then some j else rest

abbrev pub is_pending : BridgeJobState → Bool
is_pending pending = true
is_pending _ = false

-- the row is the reservation that the request completes
unfoldable pub is_reserved_for : BridgeAndTradeRequest → Job → Bool
is_reserved_for body j =
    chain_eq j.source_chain body.source_chain
    && (chain_eq j.dest_chain body.dest_chain
        && (text_eq j.user_id body.user_id
            && (is_pending j.status && starts_with j.burn_tx_hash (codes "pending:"))))

abbrev pub burn_exists : BridgeAndTradeRequest → Job → Exn
burn_exists body j = http_error 409 (
    codes "Bridge job already exists for burn tx "
    ++ (take 16 body.burn_tx_hash ++ (codes "... (job " ++ (j.id ++ codes ")"))))

abbrev pub quote_exists : Text → Job → Exn
quote_exists q j =
    http_error 409 (
      codes "Bridge job already exists for quote "
      ++ (q ++ (codes " (job " ++ (j.id ++ codes ")"))))

-- The row of a request; the columns that it does not name are null.
abbrev pub new_job : Text → BridgeAndTradeRequest → Option Text → Job
new_job id body signed = record {
  id = id;
  user_id = body.user_id;
  source_chain = body.source_chain;
  dest_chain = body.dest_chain;
  status = pending;
  burn_tx_hash = body.burn_tx_hash;
  burn_amount = body.burn_amount;
  mint_recipient = body.mint_recipient;
  quote_id = body.quote_id;
  signed_trade_tx = signed;
  attestation_message = none;
  attestation_signature = none;
  mint_tx_hash = none;
  trade_tx_hash = none;
  arc_receive_tx_hash = none;
  arc_finalize_tx_hash = none;
  gross_amount_usdc = none;
  circle_fee_usdc = none;
  net_amount_usdc = none;
  receiver = none;
  error_message = none;
}

-- an exception of the database, whatever it is, becomes `e`
abbrev pub masked : Exn → Option Exn → Option Exn
masked e none = none
masked e (some x) = some e

module _ (env : Env) (cosign : Text → Result Text) where
  abbrev pub cosigned : Result Text → Result (Option Text)
  cosigned (ok tx) = ok (some tx)
  cosigned (err (external m)) =
      err (http_error 502 (codes "Could not validate Solana trade transaction"))
  cosigned (err (raised m)) = err (http_error 400 m)
  cosigned (err (invalid_int m)) = err (http_error 400 (env.int_message m))
  cosigned (err (invalid_hex m)) = err (http_error 400 (env.hex_message m))

  -- `_normalize_signed_trade_tx_or_raise`; `cosign` is `cosign_sponsored_solana_trade_tx`
  unfoldable pub normalize_signed_trade_tx : Chain → Option Text → Result (Option Text)
  normalize_signed_trade_tx dest (some (c ∷ s)) =
      if chain_eq dest solana then cosigned (cosign (c ∷ s)) else ok (some (c ∷ s))
  normalize_signed_trade_tx dest signed = ok signed

  abbrev pub query : {A : Type 0} → Exn → (World → A) → Action A
  query e q w = on_database (masked e (env.database w.tick)) q (λ v. v) w

  abbrev pub refuse_existing : (Job → Exn) → Option Job → Action Unit
  refuse_existing e none = pure tt
  refuse_existing e (some j) = raise (e j)

  unfoldable pub insert_job : BridgeAndTradeRequest → Option Text → Action Text
  insert_job body signed w =
      on_database
        (masked (http_error 502 (codes "Could not create bridge job")) (env.database w.tick))
        (λ v. env.new_id v.tick)
        (λ v. record v { jobs = v.jobs ++ new_job (env.new_id w.tick) body signed ∷ [] }) w

  abbrev pub reservation_fields : BridgeAndTradeRequest → Option Text → BridgeFields
  reservation_fields body signed = record no_fields {
    burn_tx_hash = some body.burn_tx_hash;
    burn_amount = some body.burn_amount;
    mint_recipient = some body.mint_recipient;
    signed_trade_tx = some signed;
    error_message = some none;
  }

  -- an update that names no row answers with no data
  abbrev pub answer_update : Text → BridgeFields → Bool → World → Result Text × World
  answer_update k f true w = (ok k, record w { jobs = update_rows k f w.jobs })
  answer_update k f false w =
      (err (http_error 502 (codes "Bridge job reservation finalize returned no data")), w)

  abbrev pub update_reserved : Text → BridgeFields → Option Exn → Action Text
  update_reserved k f (some e) w = (err e, next_tick w)
  update_reserved k f none w = answer_update k f (any (λ j. text_eq j.id k) w.jobs) (next_tick w)

  unfoldable pub update_reservation : Text → BridgeFields → Action Text
  update_reservation k f w =
      update_reserved k f
        (masked (http_error 502 (codes "Could not finalize bridge job reservation"))
          (env.database w.tick))
        w

  -- `_finalize_bridge_reservation_or_raise`
  unfoldable pub finalize_bridge_reservation : Job → BridgeAndTradeRequest → Action Text
  finalize_bridge_reservation reserved body = do
    signed ← lift (normalize_signed_trade_tx body.dest_chain body.signed_trade_tx)
    job_id ← update_reservation reserved.id (reservation_fields body signed)
    enqueue_job env job_id
    pure job_id

  unfoldable pub insert_and_enqueue : BridgeAndTradeRequest → Option Text → Action Text
  insert_and_enqueue body signed = do
    job_id ← insert_job body signed
    enqueue_job env job_id
    pure job_id

  abbrev pub create_or_finalize :
      BridgeAndTradeRequest → Option Text → Text → Option Job → Action Text
  create_or_finalize body signed q none = insert_and_enqueue body signed
  create_or_finalize body signed q (some reserved) =
      if is_reserved_for body reserved
      then finalize_bridge_reservation reserved body
      else raise (quote_exists q reserved)

  abbrev pub create_for_quote : BridgeAndTradeRequest → Option Text → Option Text → Action Text
  create_for_quote body signed (some (c ∷ q)) = do
    reserved ←
        query (http_error 502 (codes "Could not check for duplicate quote"))
          (λ v. find_quote (c ∷ q) v.jobs)
    create_or_finalize body signed (c ∷ q) reserved
  create_for_quote body signed _ = insert_and_enqueue body signed

  -- `_create_bridge_job_or_raise`
  unfoldable pub create_bridge_job : BridgeAndTradeRequest → Action Text
  unfolding insert_and_enqueue finalize_bridge_reservation
  create_bridge_job body = do
    signed ← lift (normalize_signed_trade_tx body.dest_chain body.signed_trade_tx)
    existing ←
        query (http_error 502 (codes "Could not check for duplicate bridge job"))
          (λ v. find_burn body.burn_tx_hash v.jobs)
    refuse_existing (burn_exists body) existing
    create_for_quote body signed body.quote_id
