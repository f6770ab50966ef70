-- ===== src/Yield/Airdrop.antt =====
-- src/bots/yield_airdrop.py: the harvest of an asset's yield, its division among the positions, and
-- the transfers. A fee of more than 10,000 basis points would make the distributable amount negative
-- and is left out.
use options_protocol_backend.Prelude.{
  ℕ, ◌+◌, ◌-◌, ◌*◌, ◌/◌, Bool, true, false, Option, none, some, List, [], ◌∷◌, ◌++◌, filter, length,
  ◌==◌, if◌then◌else◌,
}
use options_protocol_backend.Prelude.Text.{Text, truthy}
use options_protocol_backend.Prelude.Int.{ℤ}
use options_protocol_backend.Exec.{pure, lift, try_except, ◌>>=◌, ◌>>◌}
use options_protocol_backend.Yield.{Allocation, calculate_allocations}
use options_protocol_backend.Yield.Tables.{
  processed, skipped, failed_asset, AllocationRow, Env, Action, next_tick, ask, answer, on_database,
  AssetSummary, amount_or, key_taken, has_distribution, allocation_rows, is_pending_of, mark_paid,
}

module _ (env : Env) where
  abbrev pub read_harvested : Text → ℕ → Text → Action (Option ℕ)
  read_harvested asset accrued tx w =
      answer (env.harvested_in w.tick tx)
        (λ o v. record v { harvests = (asset, amount_or accrued o) ∷ v.harvests }) w

  abbrev pub harvest_now : Text → ℕ → Action (Option (Text × ℕ))
  harvest_now asset accrued = do
    tx ← ask (λ n. env.harvest_yield n asset)
    actual ← read_harvested asset accrued tx
    pure (some (tx, amount_or accrued actual))

  abbrev pub harvest_known : Text → Action (Option (Text × ℕ))
  harvest_known asset = do
    accrued ← ask (λ n. env.accrued_yield n asset)
    if accrued == 0 then pure none else harvest_now asset accrued

  -- `_harvest`
  unfoldable pub harvest : Text → Action (Option (Text × ℕ))
  harvest asset = if truthy (env.asset_address asset) then harvest_known asset else pure none

  -- A transfer is listed whether it answers or raises: the wait for its receipt raises too.
  unfoldable pub send : Text → Text → ℕ → Action Text
  send asset recipient amount w = (
    env.transfer w.tick asset recipient amount,
    record (next_tick w) {
      transfers = record { asset = asset; recipient = recipient; amount = amount } ∷ w.transfers;
    },
  )

  abbrev pub send_fee : Text → ℕ → Action (Option Text)
  send_fee asset amount = do tx ← send asset env.treasury amount; pure (some tx)

  -- `_transfer_fee_to_treasury`
  unfoldable pub transfer_fee_to_treasury : Text → ℕ → Action (Option Text)
  unfolding send
  transfer_fee_to_treasury asset amount =
      if amount == 0
      then pure none
      else if truthy (env.asset_address asset)
      then send_fee asset amount
      else pure none

  unfoldable pub insert_distribution : Text → Text → ℕ → ℕ → ℕ → ℕ → Action Text
  insert_distribution tx asset total fee period_start period_end w =
      on_database
        (key_taken (has_distribution (env.new_id w.tick) w.distributions) (env.database w.tick))
        (λ _. env.new_id w.tick)
        (λ v. record v {
          distributions =
              v.distributions
              ++ record {
                id = env.new_id w.tick;
                harvest_tx_hash = tx;
                asset = asset;
                total_yield = total;
                platform_fee = fee;
                period_start = period_start;
                period_end = period_end;
              }
                ∷ [];
        })
        w

  unfoldable pub insert_allocations : List Allocation → Action Unit
  unfolding allocation_rows
  insert_allocations xs w =
      on_database (env.database w.tick) (λ _. tt)
        (λ v. record v { allocations = v.allocations ++ allocation_rows (env.row_id w.tick) 0 xs })
        w

  -- `save_allocations`
  unfoldable pub save_allocations : List Allocation → Action Unit
  unfolding insert_allocations
  save_allocations [] = pure tt
  save_allocations (a ∷ xs) = insert_allocations (a ∷ xs)

  unfoldable pub select_pending : Text → Action (List AllocationRow)
  select_pending id w =
      on_database (env.database w.tick) (λ v. filter (is_pending_of id) v.allocations) (λ v. v) w

  unfoldable pub update_delivered : Text → Text → Action Unit
  unfolding mark_paid
  update_delivered id tx w =
      on_database (env.database w.tick) (λ _. tt)
        (λ v. record v { allocations = mark_paid id tx v.allocations }) w

  abbrev pub sent_or_failed : Text → Option Text → Action Bool
  sent_or_failed id none = pure false
  sent_or_failed id (some tx) = do update_delivered id tx; pure true

  abbrev pub send_allocation : Allocation → Text → Action (Option Text)
  send_allocation a recipient = do tx ← send a.asset recipient a.amount; pure (some tx)

  abbrev pub pay_allocation : AllocationRow → Action Bool
  pay_allocation r = do
    recipient ← lift (env.to_checksum_address r.allocation.user_address)
    tx ← try_except (send_allocation r.allocation recipient) (λ e. pure none)
    sent_or_failed r.id tx

  -- one round of the loop: was the amount delivered? A transfer that raises counts as failed; an
  -- address that is not one, and an update that raises, end the loop.
  unfoldable pub deliver_allocation : AllocationRow → Action Bool
  unfolding send update_delivered
  deliver_allocation r =
      if truthy (env.asset_address r.allocation.asset) then pay_allocation r else pure false

  abbrev pub counted : Bool → ℕ × ℕ → ℕ × ℕ
  counted true (delivered, failed) = (delivered + 1, failed)
  counted false (delivered, failed) = (delivered, failed + 1)

  -- `_distribute_allocations`: (delivered, failed)
  unfoldable pub distribute_allocations : List AllocationRow → ℕ × ℕ → Action (ℕ × ℕ)
  unfolding deliver_allocation
  distribute_allocations [] counts = pure counts
  distribute_allocations (r ∷ rs) counts = do
    done ← deliver_allocation r
    distribute_allocations rs (counted done counts)

  module _ (period_start period_end : ℕ) where
    abbrev pub divide : Text → ℕ → Text → Action (List Allocation × ℤ)
    divide asset distributable id = do
      positions ← ask (λ n. env.yield_positions n asset)
      pure
          (calculate_allocations env.share id asset period_start period_end distributable positions)

    abbrev pub distribute_harvest : Text → Text × ℕ → Action AssetSummary
    distribute_harvest asset (tx, total) = do
      let fee = (total * env.protocol_fee_bps) / 10000
      id ← insert_distribution tx asset total fee period_start period_end
      try_except (transfer_fee_to_treasury asset fee >> pure tt) (λ e. pure tt)
      (allocations, dust) ← divide asset (total - fee) id
      save_allocations allocations
      saved ← select_pending id
      (delivered, failed) ← distribute_allocations saved (0, 0)
      pure (processed total fee (total - fee) (length allocations) delivered failed dust)

    abbrev pub distribute_if : Text → Option (Text × ℕ) → Action AssetSummary
    distribute_if asset none = pure skipped
    distribute_if asset (some h) = distribute_harvest asset h

    -- `_process_asset`
    unfoldable pub process_asset : Text → Action AssetSummary
    unfolding harvest insert_distribution transfer_fee_to_treasury save_allocations select_pending
        distribute_allocations calculate_allocations
    process_asset asset = do harvested ← harvest asset; distribute_if asset harvested

    -- `run_airdrop`, over the assets of the settings
    unfoldable pub run_airdrop : List Text → Action (List (Text × AssetSummary))
    unfolding process_asset
    run_airdrop [] = pure []
    run_airdrop (asset ∷ rest) = do
      summary ← try_except (process_asset asset) (λ e. pure failed_asset)
      others ← run_airdrop rest
      pure ((asset, summary) ∷ others)
