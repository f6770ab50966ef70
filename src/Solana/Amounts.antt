-- ===== src/Solana/Amounts.antt =====
-- src/bots/solana_expiry_settler.py: the strike in the 8 decimals of the chain, and the amounts of a
-- delivery.
use options_protocol_backend.Prelude.{
  ℕ, ◌-◌, ◌*◌, ◌/◌, ◌^◌, Bool, true, false, ◌||◌, Option, none, some, ltb, ◌==◌, if◌then◌else◌,
}
use options_protocol_backend.Prelude.Text.{codes}
use options_protocol_backend.Prelude.Int.{ℤ, pos, negsuc}
use options_protocol_backend.Exec.{Exn, raised, Result, ok, err}
use options_protocol_backend.Solana.State.{Decimal}

abbrev pub invalid_strike : Exn
invalid_strike = raised (codes "Invalid strike_price")

-- The products stay within the 28 digits of a `Decimal`.
abbrev pub strike_of : ℤ → ℕ → Result ℕ
strike_of (negsuc n) scale = err invalid_strike
strike_of (pos n) scale =
    if n == 0
    then err invalid_strike
    else if ltb n (1000000 * 10 ^ scale)
    then ok (n * 100000000 / 10 ^ scale)
    else ok (n / 10 ^ scale)

-- `_strike_price_to_8dec`
unfoldable pub strike_price_to_8dec : Option Decimal → Result ℕ
strike_price_to_8dec none = err invalid_strike
strike_price_to_8dec (some d) = strike_of d.coefficient d.scale

abbrev pub require_positive : ℕ → Result ℕ
require_positive n = if n == 0 then err (raised (codes "contra amount computed to zero")) else ok n

abbrev pub contra_of : ℕ → ℕ → Bool → ℕ → Result ℕ
contra_of amount strike true decimals =
    if ltb decimals 8 || ltb 18 decimals
    then err (raised (codes "unsupported PUT contra decimals"))
    else require_positive (amount * 10 ^ (decimals - 8))
contra_of amount strike false decimals =
    if ltb decimals 6 || ltb 16 decimals
    then err (raised (codes "unsupported CALL contra decimals"))
    else require_positive (amount * strike / 10 ^ (16 - decimals))

-- `_compute_solana_contra_amount`
unfoldable pub compute_solana_contra_amount : ℤ → ℤ → Bool → ℕ → Result ℕ
compute_solana_contra_amount (negsuc a) strike is_put decimals =
    err (raised (codes "amount must be positive"))
compute_solana_contra_amount (pos a) (negsuc s) is_put decimals =
    if a == 0
    then err (raised (codes "amount must be positive"))
    else err (raised (codes "strike_price must be positive"))
compute_solana_contra_amount (pos a) (pos s) is_put decimals =
    if a == 0
    then err (raised (codes "amount must be positive"))
    else if s == 0
    then err (raised (codes "strike_price must be positive"))
    else contra_of a s is_put decimals

-- `_compute_solana_collateral_amount`, of amounts that are positive. That of a put is not used.
unfoldable pub compute_solana_collateral_amount : ℕ → ℕ → Bool → ℕ → Result ℕ
compute_solana_collateral_amount amount strike true decimals =
    ok (amount * strike / 10 ^ (16 - decimals))
compute_solana_collateral_amount amount strike false decimals =
    if ltb decimals 8
    then err (raised (codes "unsupported CALL collateral decimals"))
    else ok (amount * 10 ^ (decimals - 8))
