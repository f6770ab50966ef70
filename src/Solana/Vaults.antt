-- ===== src/Solana/Vaults.antt =====
-- src/bots/solana_expiry_settler.py, phase 1: `_settle_vaults`.
use options_protocol_backend.Prelude.{
  ℕ, Bool, true, false, Option, none, some, List, [], ◌∷◌, ◌==◌, if◌then◌else◌,
}
use options_protocol_backend.Prelude.Text.{Text}
use options_protocol_backend.Exec.{pure, try_except, ◌>>=◌, ◌>>◌}
use options_protocol_backend.Solana.State.{
  Position, VaultData, vault_of, vault_settled, settled, reconciled, Env, Action, ask, send,
  db_update,
}

module _ (env : Env) where
  abbrev pub settle_priced : Position → VaultData → ℕ → Action (Option Text)
  settle_priced p vault price = if price == 0 then pure none else do
    signature ← send (λ n. env.settle_vault n p vault) (vault_settled (vault_of p))
    pure (some signature)

  -- the body of the `try`: the signature, unless the price is missing
  unfoldable pub send_settle : Position → VaultData → Action (Option Text)
  send_settle p vault = do
    account ← ask (λ n. env.ensure_ata n vault.beneficiary vault.collateral_mint)
    price ← ask (λ n. env.controller_price n p.otoken_address)
    settle_priced p vault price

  -- what follows: is the position settled?
  abbrev pub after_settle : Position → Option Text → Action Bool
  after_settle p none = pure false
  after_settle p (some signature) = do
    try_except (db_update env (vault_of p) (settled (vault_of p) signature)) (λ e. pure tt)
    pure true

  abbrev pub settle_open : Position → Option VaultData → Action Bool
  settle_open p none = pure false
  settle_open p (some vault) = do
    signature ← try_except (send_settle p vault) (λ e. pure none)
    after_settle p signature

  abbrev pub reconcile : Position → Action Bool
  reconcile p = do db_update env (vault_of p) (reconciled (vault_of p)); pure true

  abbrev pub read_and_settle : Position → Action Bool
  read_and_settle p = do vault ← ask (λ n. env.read_vault_data n p.vault_id); settle_open p vault

  -- one round of the loop
  unfoldable pub settle_vault : Position → Action Bool
  unfolding send_settle
  settle_vault p = do
    done ← ask (λ n. env.is_vault_settled n p.vault_id)
    if done then reconcile p else read_and_settle p

  abbrev pub keep_settled : Position → Bool → List Position → List Position
  keep_settled p true ps = p ∷ ps
  keep_settled p false ps = ps

  unfoldable pub settle_vaults : List Position → Action (List Position)
  unfolding settle_vault
  settle_vaults [] = pure []
  settle_vaults (p ∷ ps) = do
    done ← settle_vault p
    rest ← settle_vaults ps
    pure (keep_settled p done rest)
