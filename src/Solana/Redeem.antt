-- ===== src/Solana/Redeem.antt =====
-- src/bots/solana_expiry_settler.py, phase 2: `_redeem_itm_positions`.
use options_protocol_backend.Prelude.{
  ℕ, Bool, true, false, Option, none, some, List, ◌∷◌, ltb, if◌then◌else◌,
}
use options_protocol_backend.Prelude.Text.{Text, codes}
use options_protocol_backend.Prelude.Int.{pos_part}
use options_protocol_backend.Exec.{raised, pure, raise, lift, try_except, for_each, ◌>>=◌, ◌>>◌}
use options_protocol_backend.Solana.State.{
  Position, OtokenInfo, VaultData, vault_of, exact_in, exact_out, redeemed, itm_redeemed,
  delivery_amount, itm_failed, Env, Action, ask, send, db_update,
}
use options_protocol_backend.Solana.Amounts.{
  compute_solana_contra_amount, compute_solana_collateral_amount,
}
use options_protocol_backend.Solana.Moneyness.{Cache, find_cached}

abbrev pub contra_mint : OtokenInfo → Text
contra_mint info = if info.is_put then info.underlying else info.strike_asset

abbrev pub surplus_mint : OtokenInfo → Text
surplus_mint info = if info.is_put then info.collateral_mint else contra_mint info

module _ (env : Env) where
  abbrev pub mark_failed : Position → ℕ → Action Unit
  mark_failed p price = db_update env (vault_of p) (itm_failed (vault_of p) price)

  unfoldable pub ensure_accounts : Position → Text → OtokenInfo → Action Unit
  ensure_accounts p mm info = do
    ask (λ n. env.ensure_ata n env.settler_config p.otoken_address)
    ask (λ n. env.ensure_ata n env.settler_config info.collateral_mint)
    ask (λ n. env.ensure_ata n env.settler_config (contra_mint info))
    ask (λ n. env.ensure_ata n p.user_address (contra_mint info))
    ask (λ n. env.ensure_ata n mm (surplus_mint info))

  abbrev pub require_covered : ℕ → ℕ → ℕ → Action ℕ
  require_covered contra collateral quoted_out =
      if ltb quoted_out contra
      then raise (raised (codes "Jupiter CALL quote below required contra amount"))
      else pure collateral

  -- the most collateral that the swap may spend
  abbrev pub max_spent : Bool → OtokenInfo → ℕ → ℕ → Action ℕ
  max_spent true info contra collateral =
      ask (λ n. env.jupiter_quote n info.collateral_mint (contra_mint info) contra exact_out)
  max_spent false info contra collateral = do
    quoted_out ←
        ask (λ n. env.jupiter_quote n info.collateral_mint (contra_mint info) collateral exact_in)
    require_covered contra collateral quoted_out

  -- the first `try`: the amount to deliver and the most that may be spent on it
  unfoldable pub prepare : Position → OtokenInfo → VaultData → Action (ℕ × ℕ)
  prepare p info vault = do
    contra_decimals ← ask (λ n. env.mint_decimals n (contra_mint info))
    collateral_decimals ← ask (λ n. env.mint_decimals n info.collateral_mint)
    contra ←
        lift (compute_solana_contra_amount p.amount info.strike_price info.is_put contra_decimals)
    collateral ← lift (
        compute_solana_collateral_amount (pos_part p.amount) (pos_part info.strike_price)
          info.is_put collateral_decimals)
    spent ← max_spent info.is_put info contra collateral
    built ← ask (λ n. env.build_redeem n p vault info spent)
    pure (contra, spent)

  -- the second `try`, with its `except`
  unfoldable pub deliver : Position → ℕ → OtokenInfo → ℕ × ℕ → Action Unit
  deliver p price info (contra, spent) =
      try_except
        (do
          signature ← send (λ n. env.physical_redeem n p spent) (redeemed p spent)
          db_update env (vault_of p) (itm_redeemed (vault_of p) signature price)
          db_update env (vault_of p) (delivery_amount (vault_of p) (contra_mint info) contra))
        (λ e. mark_failed p price)

  abbrev pub deliver_prepared : Position → ℕ → OtokenInfo → Option (ℕ × ℕ) → Action Unit
  deliver_prepared p price info none = mark_failed p price
  deliver_prepared p price info (some amounts) = deliver p price info amounts

  abbrev pub prepare_and_deliver : Position → ℕ → Text → OtokenInfo → Option VaultData → Action Unit
  prepare_and_deliver p price mm info none = mark_failed p price
  prepare_and_deliver p price mm info (some vault) = do
    ensure_accounts p mm info
    amounts ← try_except (do amounts ← prepare p info vault; pure (some amounts)) (λ e. pure none)
    deliver_prepared p price info amounts

  abbrev pub redeem_known : Position → ℕ → Text → Option OtokenInfo → Action Unit
  redeem_known p price mm none = mark_failed p price
  redeem_known p price mm (some info) = do
    vault ← ask (λ n. env.read_vault_data n p.vault_id)
    prepare_and_deliver p price mm info vault

  abbrev pub redeem_for : Position → ℕ → Option Text → Action Unit
  redeem_for p price (some (c ∷ s)) = do
    info ← ask (λ n. env.otoken_info n p.otoken_address)
    redeem_known p price (c ∷ s) info
  redeem_for p price _ = mark_failed p price

  -- one round of the loop
  unfoldable pub redeem_position : Position → ℕ → Action Unit
  unfolding ensure_accounts prepare deliver
  redeem_position p price = redeem_for p price p.mm_address

  abbrev pub price_or_zero : Option ℕ → ℕ
  price_or_zero none = 0
  price_or_zero (some price) = price

  unfoldable pub redeem_itm_positions : List Position → Cache → Action Unit
  unfolding redeem_position
  redeem_itm_positions itm cache =
      for_each itm (λ p. redeem_position p (price_or_zero (find_cached p.otoken_address cache)))
