-- ===== src/Settler/Tests.antt =====
-- The theorems about the settlement's amounts at concrete inputs.
use options_protocol_backend.Prelude.{
  ℕ, ◌-◌, ◌*◌, ◌/◌, ◌^◌, true, false, ◌≡◌, refl, Option, none, some, [], ◌∷◌, arith, ◌==◌,
  if◌then◌else◌,
}
use options_protocol_backend.Prelude.Text.{codes}
use options_protocol_backend.Prelude.Int.{pos}
use options_protocol_backend.Exec.{Result, ok, err, external}
use options_protocol_backend.Exec.Post.{Outcome}
use options_protocol_backend.Settler.State.{World, Env}
use options_protocol_backend.Settler.Delivery.{Limits, physical_redeem_with_retry}
use options_protocol_backend.Settler.Batches.{batches, mark_batch_settled}
use options_protocol_backend.Settler.Cycle.{settle_once}
use options_protocol_backend.Settler.Confirmed.{DeliversSettled}
use options_protocol_backend.Settler.Safety.{settle_once-DeliversSettled}
use options_protocol_backend.Settler.Retries.{
  Raised, DeliveredOnce, physical_redeem_with_retry-DeliveredOnce, marks_after,
  mark_batch_settled-marks, IsBatching, batches-IsBatching,
}
use options_protocol_backend.Settler.{Position, Settings}
use options_protocol_backend.Settler.Amounts.{compute_slippage_param}
use options_protocol_backend.Settler.Bounds.{
  IsFloor, IsCeiling, compute_slippage_param-IsFloor, compute_slippage_param-IsCeiling,
  compute_slippage_param-quoted,
}
use options_protocol_backend.Settler.Moneyness.{Key, identify_itm_positions}
use options_protocol_backend.Settler.Partition.{itm_at, unpriced_at, identify_itm_positions-Sorted}

abbrev put : Position
put = record {
  user_address = codes "0xuser";
  vault_id = 1;
  otoken_address = codes "0xtoken";
  mm_address = some (codes "0xmm");
  amount = pos 100000000;
  strike_price = pos 200000000000;
  is_put = true;
  expiry = 1700000000;
  underlying = codes "0xweth";
  decimals = 18;
}

abbrev call : Position
call = record put { is_put = false; vault_id = 2 }

abbrev beta : Settings
beta = record { beta_mode = true; swap_slippage_bps = 100 }

abbrev production : Settings
production = record { beta_mode = false; swap_slippage_bps = 100 }

abbrev quote_exact_output : ℕ → Result ℕ
quote_exact_output amount = ok 1950000000

compute_slippage_param-IsFloor_example :
    (m : ℕ) × (compute_slippage_param beta quote_exact_output call none
      ≡ ok (pos m, (100000000 * 200000000000) / 10000000000))
    × IsFloor 1000 ((100000000 * 200000000000) / 10000000000) m
compute_slippage_param-IsFloor_example =
    compute_slippage_param-IsFloor beta quote_exact_output call 99999999 199999999999 refl refl refl
      (omega arith) (omega arith) none

compute_slippage_param-IsCeiling_example :
    (m : ℕ) × (compute_slippage_param beta quote_exact_output put (some (pos 195000000000))
      ≡ ok (pos m, 100000000 * 10 ^ (18 - 8)))
    × IsCeiling 1000 ((100000000 * 10 ^ (18 - 8) * 195000000000) / 10 ^ 20) m
compute_slippage_param-IsCeiling_example =
    compute_slippage_param-IsCeiling beta quote_exact_output put 99999999 199999999999 refl refl
      refl refl 194999999999

compute_slippage_param-quoted_example :
    (m : ℕ) × (compute_slippage_param production quote_exact_output put none
      ≡ ok (pos m, 100000000 * 10 ^ (18 - 8)))
    × IsCeiling 100 1950000000 m
compute_slippage_param-quoted_example =
    compute_slippage_param-quoted production quote_exact_output put 99999999 199999999999 refl refl
      refl refl 1950000000 refl none

-- The price of the put's underlying is final, and the next read fails.
abbrev oracle : ℕ → Key → Option ℕ
oracle n k = if n == 0 then some 195000000000 else none

identify_itm_positions-Sorted_example :
    ((identify_itm_positions oracle (put ∷ call ∷ [])).itm
      ≡ itm_at (identify_itm_positions oracle (put ∷ call ∷ [])).cache (put ∷ call ∷ []))
    × ((identify_itm_positions oracle (put ∷ call ∷ [])).skipped
        ≡ unpriced_at (identify_itm_positions oracle (put ∷ call ∷ [])).cache (put ∷ call ∷ []))
identify_itm_positions-Sorted_example = identify_itm_positions-Sorted oracle (put ∷ call ∷ [])

abbrev limits : Limits
limits = record {
  slippage = beta;
  settlement_max_retries = 3;
  usdc_address = codes "0xUSDC";
  base_assets = codes "0xweth" ∷ [];
}

-- The batch fails at first, the chain has the put as settled, and one redemption goes through.
abbrev env : Env
env = record {
  vault_settled = λ n k. ok (k.1 == 1);
  batch_settle_vaults =
      λ n ks. if n == 5 then err (external (codes "gas")) else ok (codes "0xbatch");
  physical_redeem =
      λ n p s. if n == 9 then err (external (codes "nonce")) else ok (codes "0xredeem");
  quote_exact_output = λ n amount. ok 1950000000;
  chainlink_price = λ n u. ok 195000000000;
  expiry_price = λ n k. ok (195000000000, true);
  set_expiry_price = λ n k price. ok (codes "0xset");
  database = λ n. none;
  has_row = λ n k. true;
}

abbrev fresh : World
fresh = record { calls = []; writes = []; tick = 0 }

settle_once-DeliversSettled_example :
    DeliversSettled env [] (settle_once limits env (put ∷ call ∷ []) [] fresh).1.calls
settle_once-DeliversSettled_example =
    settle_once-DeliversSettled limits env [] (put ∷ call ∷ []) fresh refl

physical_redeem_with_retry-DeliveredOnce_example :
    Outcome
      (λ _ v. DeliveredOnce put [] limits.settlement_max_retries v.calls)
      (λ _ v. Raised put [] limits.settlement_max_retries v.calls)
      (physical_redeem_with_retry limits env put 195000000000 fresh)
physical_redeem_with_retry-DeliveredOnce_example =
    physical_redeem_with_retry-DeliveredOnce limits env put 195000000000 fresh

mark_batch_settled-marks_example :
    Outcome
      (λ _ v. v.writes ≡ marks_after (codes "0xt") ((codes "0xa", 1) ∷ []) [])
      (λ _ _. Unit)
      (mark_batch_settled env (codes "0xt") ((codes "0xa", 1) ∷ []) fresh)
mark_batch_settled-marks_example =
    mark_batch_settled-marks env (codes "0xt") ((codes "0xa", 1) ∷ []) fresh

batches-IsBatching_example : IsBatching (batches (put ∷ call ∷ [])) (put ∷ call ∷ [])
batches-IsBatching_example = batches-IsBatching (put ∷ call ∷ [])
