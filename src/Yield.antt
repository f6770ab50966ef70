-- ===== src/Yield.antt =====
-- src/yield_tracking/calculator.py: how the harvested yield of a period is divided among the
-- positions. Times are whole numbers of microseconds, and a weight is exact. The product
-- `int(distributable * (weight / total_weight))` goes through floats: it is the parameter `share`.
pub mod Total
pub mod Tables
pub mod Airdrop
pub mod Shares
pub mod Owed
pub mod Rules
pub mod Steps
pub mod Conserved
mod Tests
use options_protocol_backend.Prelude.{
  ℕ, zero, suc, ◌+◌, ◌-◌, ◌*◌, min, max, Bool, true, false, not, ◌&&◌, Option, none, some, List, [],
  ◌∷◌, filter, ltb, leb, ◌==◌, if◌then◌else◌,
}
use options_protocol_backend.Prelude.Text.{Text}
use options_protocol_backend.Prelude.Int.{ℤ, pos, ◌-ℤ◌, ltb_ℤ}

pub record Position : Type 0 where
  pub id : Text
  pub user_address : Text
  pub collateral_amount : ℕ
  pub deposited_at : ℕ
  pub settled_at : Option ℕ

-- An allocation, pending until it is paid out.
pub record Allocation : Type 0 where
  pub distribution_id : Text
  pub position_id : Text
  pub user_address : Text
  pub asset : Text
  pub amount : ℕ

abbrev pub settled_by : Option ℕ → ℕ → Bool
settled_by none t = false
settled_by (some s) t = leb s t

-- The query's `.lt("deposited_at", period_end)`, and the filter on `settled_at`.
unfoldable pub is_active : ℕ → ℕ → Position → Bool
is_active period_start period_end p =
    ltb p.deposited_at period_end && not (settled_by p.settled_at period_start)

abbrev pub end_of : Option ℕ → ℕ → ℕ
end_of none period_end = period_end
end_of (some s) period_end = min s period_end

-- collateral times the time in the period; a difference below 0 counts as 0
unfoldable pub weight_of : ℕ → ℕ → Position → ℕ
weight_of period_start period_end p =
    p.collateral_amount * (end_of p.settled_at period_end - max p.deposited_at period_start)

unfoldable pub total_weight : ℕ → ℕ → List Position → ℕ
unfolding weight_of
total_weight period_start period_end [] = 0
total_weight period_start period_end (p ∷ ps) =
    weight_of period_start period_end p + total_weight period_start period_end ps

unfoldable pub sum_amounts : List Allocation → ℕ
sum_amounts [] = 0
sum_amounts (a ∷ xs) = a.amount + sum_amounts xs

-- The dust goes to the first allocation.
unfoldable pub add_dust : ℕ → List Allocation → List Allocation
add_dust d [] = []
add_dust d (a ∷ xs) = record a { amount = a.amount + d } ∷ xs

module _ (share : ℕ → ℕ → ℕ → ℕ) (distribution_id asset : Text)
    (period_start period_end distributable : ℕ) where
  abbrev pub allocation : Position → ℕ → Allocation
  allocation p amount = record {
    distribution_id = distribution_id;
    position_id = p.id;
    user_address = p.user_address;
    asset = asset;
    amount = amount;
  }

  abbrev pub keep_nonzero : Position → ℕ → List Allocation → List Allocation
  keep_nonzero p zero rest = rest
  keep_nonzero p (suc n) rest = allocation p (suc n) ∷ rest

  -- the loop over the weights
  unfoldable pub rounded_shares : ℕ → List Position → List Allocation
  rounded_shares total [] = []
  rounded_shares total (p ∷ ps) =
      keep_nonzero p (share distributable (weight_of period_start period_end p) total)
        (rounded_shares total ps)

  -- `allocations[0]["amount"] += dust` where `dust > 0`
  unfoldable pub assign_dust : List Allocation → List Allocation × ℤ
  unfolding sum_amounts add_dust
  assign_dust xs = (
    if ltb (sum_amounts xs) distributable then add_dust (distributable - sum_amounts xs) xs else xs,
    pos distributable -ℤ pos (sum_amounts xs),
  )

  abbrev pub allocate : List Position → ℕ → List Allocation × ℤ
  allocate positions zero = ([], pos 0)
  allocate positions (suc total) = assign_dust (rounded_shares (suc total) positions)

  -- `rows` are the rows of the asset
  unfoldable pub calculate_allocations : List Position → List Allocation × ℤ
  unfolding rounded_shares assign_dust total_weight is_active
  calculate_allocations rows =
      let positions = filter (is_active period_start period_end) rows in
      allocate positions (total_weight period_start period_end positions)
