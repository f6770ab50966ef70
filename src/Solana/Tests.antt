-- ===== src/Solana/Tests.antt =====
-- A cycle on Solana at concrete inputs.
use options_protocol_backend.Prelude.{arith, replicate}
use options_protocol_backend.Prelude.{true, false, ◌≡◌, refl, none, some, [], ◌∷◌}
use options_protocol_backend.Prelude.Text.{codes, text_eq}
use options_protocol_backend.Prelude.Int.{pos}
use options_protocol_backend.Exec.{ok, try_except, for_each, ◌>>=◌}
use options_protocol_backend.Solana.State.{
  Position, OtokenInfo, VaultData, World, Env, redeemed, vault_settled, ask, send, db_update,
}
use options_protocol_backend.Solana.Amounts.{
  strike_price_to_8dec, compute_solana_contra_amount, compute_solana_collateral_amount,
}
use options_protocol_backend.Solana.Prices.{ensure_expiry_prices_set}
use options_protocol_backend.Solana.Vaults.{settle_vaults}
use options_protocol_backend.Solana.Moneyness.{identify_itm_positions}
use options_protocol_backend.Solana.Redeem.{redeem_itm_positions}
use options_protocol_backend.Solana.Cycle.{add_pending, settle_once}
use options_protocol_backend.Solana.Identified.{Sound}
use options_protocol_backend.Solana.Pyth.{Update, parse_pyth_accumulator_update}
use options_protocol_backend.Solana.Pyth.Encoding.{encode, parse_pyth_accumulator_update-encode}
use options_protocol_backend.Solana.Redeemed.{settle_once-Sound}

-- A put of one unit at 88 dollars.
abbrev put : Position
put = record {
  user_address = codes "user";
  vault_id = 7;
  otoken_address = codes "otoken";
  amount = pos 100000000;
  strike_price = some (record { coefficient = pos 880; scale = 1 });
  is_put = true;
  mm_address = some (codes "maker");
  asset = some (codes "sol");
}

abbrev info : OtokenInfo
info = record {
  underlying = codes "SOL";
  strike_asset = codes "USDC";
  collateral_mint = codes "USDC";
  strike_price = pos 8800000000;
  expiry = 1795766400;
  is_put = true;
}

abbrev vault : VaultData
vault = record {
  vault_pda = codes "pda";
  collateral_mint = codes "USDC";
  beneficiary = codes "user";
}

-- The option expired at 80 dollars.
abbrev env : Env
env = record {
  is_vault_settled = λ n k. ok false;
  read_vault_data = λ n k. ok (some vault);
  otoken_info = λ n o. ok (some info);
  controller_price = λ n o. ok 8000000000;
  oracle_price = λ n u e. ok 8000000000;
  wait_for_oracle_price = λ n u e. ok 8000000000;
  pyth_price = λ n a. ok 8000000000;
  fresh_price_update = λ n a. ok (codes "update");
  set_oracle_price = λ n u e price update. ok (codes "s1");
  set_controller_price = λ n o. ok (codes "s2");
  ensure_ata = λ n owner mint. ok tt;
  settle_vault = λ n p v. ok (codes "s3");
  mint_decimals = λ n mint. ok 9;
  jupiter_quote = λ n from to amount mode. ok 80500000;
  build_redeem = λ n p v i spent. ok tt;
  physical_redeem = λ n p spent. ok (codes "s4");
  database = λ n. none;
  has_row = λ n k. true;
  is_finalize_error = λ e. true;
  is_send_error = λ e. true;
  settler_config = codes "config";
  known_assets = codes "sol" ∷ [];
}

abbrev fresh : World
fresh = record { calls = []; writes = []; tick = 0 }

settle_once_runs :
    (settle_once env (put ∷ []) [] fresh).1.calls
    ≡ redeemed put 80500000 ∷ vault_settled (codes "user", 7) ∷ []
unfolding settle_once ensure_expiry_prices_set settle_vaults identify_itm_positions
    redeem_itm_positions add_pending strike_price_to_8dec compute_solana_contra_amount
    compute_solana_collateral_amount ask send db_update try_except for_each ◌>>=◌ text_eq
settle_once_runs = refl

settle_once-Sound_example : Sound env (settle_once env (put ∷ []) [] fresh).1.calls
settle_once-Sound_example = settle_once-Sound env (put ∷ []) [] fresh tt

-- one message with a proof of one hash
abbrev update : Update
update = (1 ∷ 2 ∷ 3 ∷ [], replicate 20 7 ∷ [])

parse_pyth_accumulator_update-encode_example :
    parse_pyth_accumulator_update (encode (9 ∷ []) 0 (5 ∷ 6 ∷ []) (update ∷ []))
    ≡ ok (5 ∷ 6 ∷ [], update ∷ [])
parse_pyth_accumulator_update-encode_example =
    parse_pyth_accumulator_update-encode (9 ∷ []) 0 (5 ∷ 6 ∷ []) (update ∷ []) (omega arith)
      (omega arith) (omega arith) ((omega arith, omega arith, (refl, tt)), tt)
