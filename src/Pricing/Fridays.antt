-- ===== src/Pricing/Fridays.antt =====
-- src/pricing/utils.py: the next expiry is the first one.
use options_protocol_backend.Prelude.{ℕ, ◌*◌, ◌%◌, ◌≤◌, ◌<◌, ◌≡◌, arith}
use options_protocol_backend.Pricing.Expiries.{
  hour, day, weekday, friday_weekday, next_0800_utc, next_friday_8am,
}

-- an instant at 08:00 UTC
abbrev pub At0800 : ℕ → Type 0
At0800 t = t % day ≡ 8 * hour

abbrev pub AtFriday0800 : ℕ → Type 0
AtFriday0800 t = (t % day ≡ 8 * hour) × (weekday t ≡ friday_weekday)

-- the first instant of a kind strictly after another
abbrev pub IsFirst : (ℕ → Type 0) → ℕ → ℕ → Type 0
IsFirst P after t = P t × (after < t) × ((u : ℕ) → P u → after < u → t ≤ u)

-- The daily expiry is the first 08:00 UTC strictly after the instant given.
pub next_0800_utc-IsFirst : (after : ℕ) → IsFirst At0800 after (next_0800_utc after)
unfolding next_0800_utc
next_0800_utc-IsFirst after = (ground arith, ground arith, λ u at later. ground arith)

-- The weekly expiry is the first Friday 08:00 UTC strictly after the instant given.
pub next_friday_8am-IsFirst : (after : ℕ) → IsFirst AtFriday0800 after (next_friday_8am after)
unfolding next_friday_8am
next_friday_8am-IsFirst after = (ground arith, ground arith, λ u at later. ground arith)
