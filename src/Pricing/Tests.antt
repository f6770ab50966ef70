-- ===== src/Pricing/Tests.antt =====
-- The theorems about pricing at concrete inputs.
use options_protocol_backend.Prelude.{
  ℕ, ◌+◌, ◌*◌, ◌≤◌, ◌≡◌, ◌||◌, refl, Bool, true, [], ◌∷◌, All, length, leb, arith,
}
use options_protocol_backend.Prelude.Text.{Text, codes, lower, text_eq}
use options_protocol_backend.Pricing.Expiries.{
  hour, next_0800_utc, next_friday_8am, sorted_set, get_expiries,
}
use options_protocol_backend.Pricing.Fridays.{AtFriday0800, IsFirst, next_friday_8am-IsFirst}
use options_protocol_backend.Pricing.Offered.{Ascending, IsExpiry, get_expiries-IsExpiry}
use options_protocol_backend.Pricing.Breaker.{
  CircuitBreaker, update_reference, check, resume, is_paused_for, check_answer, run,
}
use options_protocol_backend.Pricing.Separate.{run-Latched}

-- Thursday, 26 November 2026, at 18:00 UTC
abbrev now : ℕ
now = 1795716000000000

expiries_sample : get_expiries 4 48 now ≡ 1795766400 ∷ 1796371200 ∷ 1796976000 ∷ []
unfolding get_expiries next_0800_utc next_friday_8am sorted_set
expiries_sample = refl

next_friday_8am-IsFirst_example : IsFirst AtFriday0800 now (next_friday_8am now)
next_friday_8am-IsFirst_example = next_friday_8am-IsFirst now

get_expiries-IsExpiry_example :
    Ascending (get_expiries 4 48 now)
    × All (IsExpiry (now + 4 * hour)) (get_expiries 4 48 now)
    × (1 ≤ length (get_expiries 4 48 now))
    × (length (get_expiries 4 48 now) ≤ 4)
get_expiries-IsExpiry_example = get_expiries-IsExpiry 4 48 now (omega arith)

-- Prices in whole dollars, and a threshold of a tenth.
abbrev trips : ℕ → ℕ → Bool
trips reference price = leb (10 * price) (9 * reference) || leb (11 * reference) (10 * price)

abbrev reason : Text → ℕ → ℕ → Text
reason asset reference price = codes "moved"

abbrev started : CircuitBreaker ℕ
started = run trips reason (update_reference 2000 (codes "ETH") 0 ∷ []) []

run-Latched_example :
    is_paused_for
      (codes "eth")
      (run trips reason (check 1700 (codes "eth") 6 ∷ resume 90000 (codes "btc") 7 ∷ []) started)
    ≡ true
unfolding run check_answer lower text_eq
run-Latched_example =
    run-Latched trips reason 1700 (codes "eth") 6 (resume 90000 (codes "btc") 7 ∷ []) started refl
      ((λ e. e), tt)
