-- ===== src/Yield/Tests.antt =====
-- The theorem about yield allocations at a concrete input.
use options_protocol_backend.Prelude.{
  ℕ, zero, suc, ◌+◌, ◌*◌, ◌/◌, none, some, [], ◌∷◌, ◌++◌, filter, map, ◌≡◌, refl, if◌then◌else◌,
}
use options_protocol_backend.Exec.{external, ok, err, ◌>>=◌}
use options_protocol_backend.Prelude.Text.{Text, codes, text_eq}
use options_protocol_backend.Prelude.Int.{pos, ◌-ℤ◌}
use options_protocol_backend.Yield.{
  Position, is_active, total_weight, rounded_shares, assign_dust, sum_amounts,
  calculate_allocations,
}
use options_protocol_backend.Yield.Tables.{Env, World}
use options_protocol_backend.Yield.Airdrop.{run_airdrop}
use options_protocol_backend.Yield.Shares.{whole}
use options_protocol_backend.Yield.Rules.{Conserved}
use options_protocol_backend.Yield.Total.{AddsUp, calculate_allocations-AddsUp}

abbrev small : Position
small = record {
  id = codes "p1";
  user_address = codes "0xa";
  collateral_amount = 100;
  deposited_at = 0;
  settled_at = none;
}

abbrev large : Position
large = record small { id = codes "p2"; collateral_amount = 200 }

-- a share that is rounded up from 2 ^ 50 units on
abbrev share : ℕ → ℕ → ℕ → ℕ
share d w zero = 0
share d w (suc t) = (d * w) / suc t + ((d * w) / suc t) / whole

-- The second allocation is the larger one, and the dust of 1 goes to the first.
dust : (calculate_allocations share [] [] 0 10 10 (small ∷ large ∷ [])).1 ≡ pos 1
unfolding calculate_allocations rounded_shares assign_dust total_weight is_active ◌-ℤ◌
dust = refl

calculate_allocations-AddsUp_example :
    AddsUp share [] [] 0 10 10
      (sum_amounts (
        rounded_shares share [] [] 0 10 10
          (total_weight 0 10 (filter (is_active 0 10) (small ∷ large ∷ [])))
          (filter (is_active 0 10) (small ∷ large ∷ []))))
      (calculate_allocations share [] [] 0 10 10 (small ∷ large ∷ [])).0
calculate_allocations-AddsUp_example =
    calculate_allocations-AddsUp share [] [] 0 10 10 (small ∷ large ∷ [])

-- The pool has 1000 of the first asset. The transfer to 0xb fails.
abbrev env : Env
env = record {
  asset_address = λ a. some a;
  treasury = codes "0xt";
  protocol_fee_bps = 400;
  accrued_yield = λ n a. ok 990;
  harvest_yield = λ n a. ok (codes "0xh");
  harvested_in = λ n tx. ok (some 1000);
  to_checksum_address = λ t. ok t;
  transfer = λ n a to m.
      if text_eq to (codes "0xb") then err (external (codes "reverted")) else ok (codes "0xp");
  database = λ n. none;
  new_id = λ n. codes "d" ++ (n ∷ []);
  row_id = λ n i. n ∷ i ∷ [];
  yield_positions = λ n a. ok (small ∷ record large { user_address = codes "0xb" } ∷ []);
  share = share;
}

abbrev start : World
start = record { distributions = []; allocations = []; harvests = []; transfers = []; tick = 0 }

-- 40 to the treasury, 320 to the first user, and 640 in the transfer that raises.
paid_out :
    map (λ t. t.amount) (run_airdrop env 0 10 (codes "usdc" ∷ []) start).1.transfers
    ≡ 640 ∷ 320 ∷ 40 ∷ []
unfolding run_airdrop text_eq ◌>>=◌
paid_out = refl
