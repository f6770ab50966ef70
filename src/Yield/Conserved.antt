-- ===== src/Yield/Conserved.antt =====
-- src/bots/yield_airdrop.py: what an airdrop pays out, against what it harvested.
use options_protocol_backend.Prelude.{ℕ, ◌*◌, ◌≤◌, List}
use options_protocol_backend.Prelude.Text.{Text}
use options_protocol_backend.Prelude.Int.{ℤ}
use options_protocol_backend.Exec.Post.{Post}
use options_protocol_backend.Yield.{Allocation, sum_amounts}
use options_protocol_backend.Yield.Tables.{Env}
use options_protocol_backend.Yield.Shares.{whole, whole_and_part, IsAccurate}
use options_protocol_backend.Yield.Owed.{For}

module _ (env : Env) (accurate : IsAccurate env.share) (bps : env.protocol_fee_bps ≤ 10000)
    (period_start period_end : ℕ) where
  -- the allocations of a harvest
  abbrev Divided : Text → Text → ℕ → List Allocation × ℤ → Type 0
  Divided id asset n (xs, dust) = For id asset xs × (sum_amounts xs * whole ≤ n * whole_and_part)
