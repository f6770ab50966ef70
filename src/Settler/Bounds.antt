-- ===== src/Settler/Bounds.antt =====
-- The bounds that `compute_slippage_param` of src/bots/expiry_settler.py promises to the contract.
use mathlib.Core.Path.{subst}
use native.Mathlib.Nat.{mul-le-mul_left}
use options_protocol_backend.Prelude.{
  ℕ, zero, suc, ◌+◌, ◌-◌, ◌*◌, ◌/◌, ◌^◌, ◌≤◌, ◌<◌, true, false, ◌≡◌, refl, ◌∙◌, ap, inl, inr,
  Option, some, arith, Bool-cases, if◌then◌else◌,
}
use options_protocol_backend.Prelude.Int.{ℤ, pos, ◌-ℤ◌}
use options_protocol_backend.Exec.{Result, ok}
use options_protocol_backend.Settler.{Position, Settings}
use options_protocol_backend.Settler.Amounts.{
  beta_slippage_bps, compute_contra_amount, with_ceiling_buffer, amount_in_of, floor_buffer,
  beta_compute_max_collateral_put, compute_min_amount_out, max_collateral, compute_slippage_param,
}

-- The tolerance that applies.
abbrev pub bps_of : Settings → ℕ
bps_of config = if config.beta_mode then beta_slippage_bps else config.swap_slippage_bps

floor_buffer_bps : (config : Settings) (c : ℕ) → floor_buffer config c ≡ (c * bps_of config) / 10000
floor_buffer_bps config c = elim (Bool-cases config.beta_mode) [
  | inl beta ↦ rw beta refl
  | inr production ↦ rw production refl
]

-- `m` is `c` less the tolerance, rounded up.
abbrev pub IsFloor : ℕ → ℕ → ℕ → Type 0
IsFloor bps c m =
    (m ≤ c) × (c * 10000 ≤ m * 10000 + c * bps) × (m * 10000 + c * bps < c * 10000 + 10000)

-- `m` is `a` and the tolerance, rounded up.
abbrev pub IsCeiling : ℕ → ℕ → ℕ → Type 0
IsCeiling bps a m = (a * 10000 + a * bps ≤ m * 10000) × (m * 10000 < a * 10000 + a * bps + 10000)

floor_IsFloor :
    (c x : ℕ)
    → x ≤ c * 10000
    → (c - x / 10000 ≤ c)
      × (c * 10000 ≤ (c - x / 10000) * 10000 + x)
      × ((c - x / 10000) * 10000 + x < c * 10000 + 10000)
floor_IsFloor c x h = (omega arith, omega (arith, h), omega (arith, h))

sub_pos : (c b : ℕ) → b ≤ c → (pos c -ℤ pos b) ≡ pos (c - b)
unfolding ◌-ℤ◌
sub_pos c b h = ground (arith, h)

with_ceiling_buffer-IsCeiling : (bps a : ℕ) → IsCeiling bps a (with_ceiling_buffer bps a)
unfolding with_ceiling_buffer
with_ceiling_buffer-IsCeiling bps a = (omega arith, omega arith)

amount_in_value :
    (contra price decimals : ℕ)
    → amount_in_of contra price decimals ≡ (contra * price) / 10 ^ (decimals + 2)
amount_in_value contra price decimals =
    let two : decimals + 8 - 6 ≡ decimals + 2 = omega arith in
    ap (λ e. (contra * price) / 10 ^ e) two

bps_bound : (c bps : ℕ) → bps ≤ 10000 → c * bps ≤ c * 10000
bps_bound c bps h = mul-le-mul_left c h

min_amount_out_value :
    (config : Settings) (c : ℕ)
    → 1 ≤ c
    → bps_of config ≤ 10000
    → compute_min_amount_out config c ≡ ok (pos (c - (c * bps_of config) / 10000))
unfolding compute_min_amount_out
min_amount_out_value config zero h k = absurd (omega (arith, h))
min_amount_out_value config (suc c) h k =
    let bounded = bps_bound (suc c) (bps_of config) k in
    ap ok (
      ap (λ b. pos (suc c) -ℤ pos b) (floor_buffer_bps config (suc c))
      ∙ sub_pos (suc c) ((suc c * bps_of config) / 10000) (omega (arith, bounded)))

module _ (config : Settings) (quote_exact_output : ℕ → Result ℕ) (position : Position) (a s : ℕ)
    (amount : position.amount ≡ pos (suc a)) (strike : position.strike_price ≡ pos (suc s)) where
  abbrev call_contra : ℕ
  call_contra = (suc a * suc s) / 10000000000

  -- For a call whose amount and strike are positive, and whose value is no dust, the code returns
  -- the exact value in USDC, and as the least amount out that value less the tolerance, rounded up;
  -- the tolerance is 10 % in beta mode and the configured one, of at most 100 %, otherwise.
  pub compute_slippage_param-IsFloor :
      position.is_put ≡ false
      → 1 ≤ (suc a * suc s) / 10000000000
      → bps_of config ≤ 10000
      → (oracle_price : Option ℤ)
      → (m : ℕ) × (compute_slippage_param config quote_exact_output position oracle_price
          ≡ ok (pos m, (suc a * suc s) / 10000000000))
        × IsFloor (bps_of config) ((suc a * suc s) / 10000000000) m
  unfolding compute_slippage_param compute_contra_amount
  compute_slippage_param-IsFloor call worth tolerance oracle_price = (
    call_contra - (call_contra * bps_of config) / 10000,
    rw (amount, strike, call, min_amount_out_value config call_contra worth tolerance) refl,
    floor_IsFloor call_contra (call_contra * bps_of config)
        (bps_bound call_contra (bps_of config) tolerance),
  )

  -- For a put whose amount and strike are positive, in beta mode and at a positive oracle price, the
  -- code returns the amount scaled to the underlying's decimals, and as the most collateral the
  -- price of that amount in USDC, which is amount * price / 10 ^ (decimals + 8 - 6) rounded down,
  -- with the tolerance of 10 %, rounded up.
  pub compute_slippage_param-IsCeiling :
      position.is_put ≡ true
      → config.beta_mode ≡ true
      → (price : ℕ)
      → (m : ℕ) × (compute_slippage_param config quote_exact_output position
            (some (pos (suc price)))
          ≡ ok (pos m, suc a * 10 ^ (position.decimals - 8)))
        × IsCeiling beta_slippage_bps
            ((suc a * 10 ^ (position.decimals - 8) * suc price) / 10 ^ (position.decimals + 2))
            m
  unfolding compute_slippage_param compute_contra_amount max_collateral
      beta_compute_max_collateral_put
  compute_slippage_param-IsCeiling put beta price = (
    with_ceiling_buffer beta_slippage_bps
        (amount_in_of (suc a * 10 ^ (position.decimals - 8)) (suc price) position.decimals),
    rw (amount, strike, put, beta) refl,
    subst
        (λ x. IsCeiling beta_slippage_bps x (
          with_ceiling_buffer beta_slippage_bps
            (amount_in_of (suc a * 10 ^ (position.decimals - 8)) (suc price) position.decimals)))
        (amount_in_value (suc a * 10 ^ (position.decimals - 8)) (suc price) position.decimals)
        (with_ceiling_buffer-IsCeiling beta_slippage_bps _),
  )

  -- For a put whose amount and strike are positive, in production mode, where the quoter names an
  -- amount, the code returns that amount and the configured tolerance, rounded up.
  pub compute_slippage_param-quoted :
      position.is_put ≡ true
      → config.beta_mode ≡ false
      → (amount_in : ℕ) → quote_exact_output (suc a * 10 ^ (position.decimals - 8)) ≡ ok amount_in
      → (oracle_price : Option ℤ)
      → (m : ℕ) × (compute_slippage_param config quote_exact_output position oracle_price
          ≡ ok (pos m, suc a * 10 ^ (position.decimals - 8)))
        × IsCeiling config.swap_slippage_bps amount_in m
  unfolding compute_slippage_param compute_contra_amount max_collateral
  compute_slippage_param-quoted put production amount_in quoted oracle_price = (
    with_ceiling_buffer config.swap_slippage_bps amount_in,
    rw (amount, strike, put, production, quoted) refl,
    with_ceiling_buffer-IsCeiling config.swap_slippage_bps amount_in,
  )
