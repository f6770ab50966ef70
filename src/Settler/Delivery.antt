-- ===== src/Settler/Delivery.antt =====
-- src/bots/expiry_settler.py, `_physical_redeem_with_retry` and the body of phase 2 of
-- `settle_once`. The waits between attempts are left out.
use options_protocol_backend.Prelude.{ℕ, zero, suc, Option, some, List, ◌∷◌, if◌then◌else◌}
use options_protocol_backend.Prelude.Text.{Text, codes, lower}
use options_protocol_backend.Prelude.Int.{ℤ, pos, leb_ℤ}
use options_protocol_backend.Exec.{
  Exn, raised, Result, ok, err, pure, raise, try_except, ◌>>=◌, ◌>>◌,
}
use options_protocol_backend.Settler.{Position, Settings}
use options_protocol_backend.Settler.Amounts.{compute_slippage_param}
use options_protocol_backend.Settler.State.{
  Vault, vault_of, Write, physical, physical_failed, Env, Action, next_tick, update_row,
  send_redeem,
}

pub record Limits : Type 0 where
  pub slippage : Settings
  pub settlement_max_retries : ℕ
  pub usdc_address : Text
  pub base_assets : List Text

module _ (limits : Limits) (env : Env) where
  unfoldable pub slippage_param : Position → ℕ → Action (ℤ × ℕ)
  slippage_param p price w = (
    compute_slippage_param limits.slippage (env.quote_exact_output w.tick) p (some (pos price)),
    next_tick w,
  )

  abbrev pub not_positive : Exn
  not_positive = raised (codes "slippage_param is not positive")

  abbrev pub require_slippage : ℤ × ℕ → Action (ℤ × ℕ)
  require_slippage (s, contra) = if leb_ℤ s (pos 0) then raise not_positive else pure (s, contra)

  abbrev pub redeem : Position → ℤ × ℕ → Action (Text × ℕ)
  redeem p (s, contra) = do tx_hash ← send_redeem env p s; pure (tx_hash, contra)

  -- the body of the `try`
  unfoldable pub redeem_once : Position → ℕ → Action (Text × ℕ)
  redeem_once p price = do
    amounts ← slippage_param p price
    checked ← require_slippage amounts
    redeem p checked

  -- the attempts that are left after the next one
  unfoldable pub redeem_attempts : ℕ → Position → ℕ → Action (Text × ℕ)
  unfolding redeem_once
  redeem_attempts zero p price = redeem_once p price
  redeem_attempts (suc n) p price =
      try_except (redeem_once p price) (λ e. redeem_attempts n p price)

  abbrev pub retries_from : ℕ → Position → ℕ → Action (Text × ℕ)
  retries_from zero p price = raise (raised (codes "settlement_max_retries must be >= 1, got 0"))
  retries_from (suc n) p price = redeem_attempts n p price

  unfoldable pub physical_redeem_with_retry : Position → ℕ → Action (Text × ℕ)
  unfolding redeem_attempts
  physical_redeem_with_retry p price = retries_from limits.settlement_max_retries p price

  -- an update whose exception is only logged
  unfoldable pub try_update : Vault → Write → Action Unit
  try_update k c = try_except (update_row env k c >> pure tt) (λ e. pure tt)

  abbrev pub delivered_asset : Position → Text
  delivered_asset p = if p.is_put then lower p.underlying else lower limits.usdc_address

  abbrev pub mark_delivered : Position → ℕ → Text × ℕ → Action Unit
  mark_delivered p price (tx_hash, contra) =
      try_update (vault_of p) (physical (vault_of p) tx_hash (delivered_asset p) contra price)

  unfoldable pub mark_failed : Position → ℕ → Action Unit
  mark_failed p price = try_update (vault_of p) (physical_failed (vault_of p) price)

  -- what follows a redemption: the mark of a delivery, or of a failure
  abbrev pub after_redeem : Position → ℕ → Result (Text × ℕ) → Action Unit
  after_redeem p price (ok receipt) = mark_delivered p price receipt
  after_redeem p price (err e) = mark_failed p price

  unfoldable pub deliver : Position → ℕ → Action Unit
  unfolding physical_redeem_with_retry
  deliver p price w =
      after_redeem p price (physical_redeem_with_retry p price w).0
        (physical_redeem_with_retry p price w).1

  abbrev pub deliver_to : Option Text → Position → ℕ → Action Unit
  deliver_to (some (c ∷ s)) p price = deliver p price
  deliver_to _ p price = mark_failed p price

  -- one round of phase 2
  unfoldable pub deliver_position : Position × ℕ → Action Unit
  unfolding deliver
  deliver_position (p, price) = deliver_to p.mm_address p price
