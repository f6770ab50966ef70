-- ===== src/Solana/Cycle.antt =====
-- src/bots/solana_expiry_settler.py: `settle_once`, from the positions that its two queries return. The
-- wait before phase 2 is left out.
use options_protocol_backend.Prelude.{
  ℕ, Bool, ◌&&◌, List, [], ◌∷◌, ◌++◌, any, length, ◌==◌, if◌then◌else◌,
}
use options_protocol_backend.Prelude.Text.{text_eq}
use options_protocol_backend.Exec.{pure, ◌>>=◌, ◌>>◌}
use options_protocol_backend.Solana.State.{Position, Env, Action}
use options_protocol_backend.Solana.Prices.{ensure_expiry_prices_set}
use options_protocol_backend.Solana.Vaults.{settle_vaults}
use options_protocol_backend.Solana.Moneyness.{Cache, identify_itm_positions}
use options_protocol_backend.Solana.Redeem.{redeem_itm_positions}

abbrev pub same_vault : Position → Position → Bool
same_vault p q = text_eq p.user_address q.user_address && (p.vault_id == q.vault_id)

-- The positions that wait for phase 2, each vault once, after those just settled.
unfoldable pub add_pending : List Position → List Position → List Position
add_pending settled [] = settled
add_pending settled (p ∷ ps) =
    add_pending (if any (λ q. same_vault q p) settled then settled else settled ++ p ∷ []) ps

module _ (env : Env) where
  abbrev pub settle_expired : List Position → Action (List Position)
  settle_expired [] = pure []
  settle_expired (p ∷ ps) = do ensure_expiry_prices_set env (p ∷ ps); settle_vaults env (p ∷ ps)

  abbrev pub redeem_found : List Position × Cache → Action Unit
  redeem_found ([], cache) = pure tt
  redeem_found (p ∷ itm, cache) = redeem_itm_positions env (p ∷ itm) cache

  unfoldable pub deliver_settled : List Position → Action ℕ
  deliver_settled [] = pure 0
  deliver_settled (p ∷ settled) = do
    found ← identify_itm_positions env (p ∷ settled) []
    redeem_found found
    pure (length (p ∷ settled))

  unfoldable pub settle_once : List Position → List Position → Action ℕ
  unfolding deliver_settled
  settle_once positions recovery = do
    settled ← settle_expired positions
    deliver_settled (add_pending settled recovery)
