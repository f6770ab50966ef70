-- ===== src/Settler/Amounts.antt =====
-- src/bots/expiry_settler.py, from `_compute_contra_amount` to `compute_slippage_param`.
use options_protocol_backend.Prelude.{
  ℕ, suc, zero, ◌+◌, ◌-◌, ◌*◌, ◌/◌, ◌^◌, Bool, true, false, Option, none, some, ◌++◌, if◌then◌else◌,
}
use options_protocol_backend.Prelude.Text.{Text, codes}
use options_protocol_backend.Prelude.Int.{ℤ, pos, ◌-ℤ◌}
use options_protocol_backend.Prelude.Decimal.{str_int}
use options_protocol_backend.Exec.{Exn, raised, Result, ok, err}
use options_protocol_backend.Settler.{Position, Settings}

abbrev pub beta_slippage_bps : ℕ
beta_slippage_bps = 1000

-- oToken amounts have 8 decimals, USDC has 6, and the underlying has `decimals`, at least 8: for fewer,
-- Python's negative power of ten gives a float.
unfoldable pub compute_contra_amount : ℕ → ℕ → ℕ → Bool → ℕ
compute_contra_amount decimals amount_raw strike true = amount_raw * 10 ^ (decimals - 8)
compute_contra_amount decimals amount_raw strike false = (amount_raw * strike) / 10000000000

-- `amount + ceil(amount * bps / 10_000)`
unfoldable pub with_ceiling_buffer : ℕ → ℕ → ℕ
with_ceiling_buffer bps amount_in = amount_in + (amount_in * bps + 9999) / 10000

abbrev pub not_positive : Text → ℤ → Exn
not_positive name n = raised (name ++ (codes " must be positive, got " ++ str_int n))

abbrev pub amount_in_of : ℕ → ℕ → ℕ → ℕ
amount_in_of contra_amount price decimals = (contra_amount * price) / 10 ^ (decimals + 8 - 6)

-- `_beta_compute_max_collateral_put`
unfoldable pub beta_compute_max_collateral_put : ℕ → ℤ → ℕ → Result ℕ
unfolding with_ceiling_buffer
beta_compute_max_collateral_put contra_amount (pos (suc p)) decimals =
    ok (with_ceiling_buffer beta_slippage_bps (amount_in_of contra_amount (suc p) decimals))
beta_compute_max_collateral_put contra_amount price decimals =
    err (not_positive (codes "oracle_price_8dec") price)

abbrev pub floor_buffer : Settings → ℕ → ℕ
floor_buffer config contra_amount =
    if config.beta_mode
    then (contra_amount * beta_slippage_bps) / 10000
    else (contra_amount * config.swap_slippage_bps) / 10000

-- `_compute_min_amount_out`
unfoldable pub compute_min_amount_out : Settings → ℕ → Result ℤ
compute_min_amount_out config zero = err (not_positive (codes "contra_amount") (pos 0))
compute_min_amount_out config (suc c) = ok (pos (suc c) -ℤ pos (floor_buffer config (suc c)))

infixl 10 ◌>>=◌
abbrev pub ◌>>=◌ : {A B : Type 0} → Result A → (A → Result B) → Result B
ok a >>= f = f a
err e >>= f = err e

abbrev pub require_positive : Text → ℤ → Result ℕ
require_positive name (pos (suc n)) = ok (suc n)
require_positive name n = err (not_positive name n)

-- the quoter's answer in production mode
abbrev pub quoted_max : Settings → ℕ → Result ℕ
quoted_max config amount_in = ok (with_ceiling_buffer config.swap_slippage_bps amount_in)

module _ (config : Settings) (quote_exact_output : ℕ → Result ℕ) where
  abbrev pub beta_max : ℕ → ℕ → Option ℤ → Result ℕ
  beta_max decimals contra_amount none =
      err (raised (codes "oracle_price_8dec is required in beta mode"))
  beta_max decimals contra_amount (some price) =
      beta_compute_max_collateral_put contra_amount price decimals

  -- the branch of a put
  unfoldable pub max_collateral : ℕ → ℕ → Option ℤ → Result ℕ
  unfolding with_ceiling_buffer
  max_collateral decimals contra_amount oracle_price =
      if config.beta_mode
      then beta_max decimals contra_amount oracle_price
      else (quote_exact_output contra_amount >>= quoted_max config)

  abbrev pub slippage_of : Bool → ℕ → ℕ → Option ℤ → Result (ℤ × ℕ)
  slippage_of true decimals contra_amount oracle_price = do
    m ← max_collateral decimals contra_amount oracle_price
    ok (pos m, contra_amount)
  slippage_of false decimals contra_amount oracle_price = do
    m ← compute_min_amount_out config contra_amount
    ok (m, contra_amount)

  -- (slippage parameter, contra amount)
  unfoldable pub compute_slippage_param : Position → Option ℤ → Result (ℤ × ℕ)
  unfolding compute_contra_amount
  compute_slippage_param position oracle_price = do
    amount_raw ← require_positive (codes "amount_raw") position.amount
    strike ← require_positive (codes "strike_price") position.strike_price
    slippage_of position.is_put position.decimals
        (compute_contra_amount position.decimals amount_raw strike position.is_put) oracle_price
