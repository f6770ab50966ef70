-- ===== src/Market/Halt.antt =====
-- src/bots/circuit_breaker_bot.py: the quotes are invalidated, on the chain and in the table; and
-- src/api/mm_routes.py: a maker cancels its quotes.
use options_protocol_backend.Prelude.{
  ℕ, ◌+◌, Bool, true, false, ◌&&◌, Option, none, some, ◌∷◌, any, filter, length, ltb, if◌then◌else◌,
}
use options_protocol_backend.Prelude.Text.{Text, codes, text_eq, lower}
use options_protocol_backend.Exec.{Result, ok, err, pure, raise, try_except, ◌>>=◌, ◌>>◌}
use options_protocol_backend.Bridge.{Chain, base, solana, chain_eq}
use options_protocol_backend.Bridge.Routes.{http_error, masked}
use options_protocol_backend.Market.{
  Env, Action, QuoteRow, on_quotes, deactivate, normalize_mm_address,
}

-- an active quote before its deadline
abbrev pub is_open : ℕ → QuoteRow → Bool
is_open now r = r.is_active && ltb now r.deadline

abbrev pub is_active_on_base : QuoteRow → Bool
is_active_on_base r = r.is_active && chain_eq r.chain base

-- `.eq("chain", chain)`, where there is a filter
abbrev pub on_chain : Option Chain → QuoteRow → Bool
on_chain none r = true
on_chain (some chain) r = chain_eq r.chain chain

abbrev pub is_cancelled : Text → Option Chain → QuoteRow → Bool
is_cancelled mm chain r = text_eq r.mm_address mm && (r.is_active && on_chain chain r)

-- the `chain` of a request, `none` where it is not one of the two
abbrev pub chain_of : Text → Option Chain
chain_of s =
    if text_eq s (codes "base")
    then some base
    else if text_eq s (codes "solana")
    then some solana
    else none

module _ (env : Env) where
  -- `_has_active_non_expired_quotes`
  unfoldable pub has_active_non_expired_quotes : ℕ → Action Bool
  has_active_non_expired_quotes now w =
      on_quotes (env.database w.tick) (any (is_open now)) (λ rows. rows) w

  -- `_deactivate_active_quotes`
  unfoldable pub deactivate_active_quotes : Action ℕ
  unfolding deactivate
  deactivate_active_quotes w =
      on_quotes (env.database w.tick) (λ rows. length (filter is_active_on_base rows))
        (deactivate is_active_on_base) w

  abbrev pub nonce_incremented : Result Text → Action Unit
  nonce_incremented (ok tx) w =
      (ok tt, record w { increments = ok tx ∷ w.increments; tick = w.tick + 1 })
  nonce_incremented (err e) w =
      (err e, record w { increments = err e ∷ w.increments; tick = w.tick + 1 })

  unfoldable pub send_increment : Action Unit
  send_increment w = nonce_incremented (env.increment_maker_nonce w.tick) w

  -- with open quotes, or without an answer about them
  abbrev pub invalidate_if : Bool → Action Unit
  invalidate_if false = pure tt
  invalidate_if true = do
    send_increment
    try_except (do n ← deactivate_active_quotes; pure tt) (λ e. pure tt)

  unfoldable pub invalidate_quotes : ℕ → Action Unit
  unfolding has_active_non_expired_quotes deactivate_active_quotes send_increment
  invalidate_quotes now = do
    has_active ← try_except (has_active_non_expired_quotes now) (λ e. pure true)
    invalidate_if has_active

  unfoldable pub cancel_rows : Text → Option Chain → Action ℕ
  unfolding deactivate normalize_mm_address
  cancel_rows mm_address chain w =
      on_quotes (masked (http_error 502 (codes "Could not cancel quotes")) (env.database w.tick))
        (λ rows. length (filter (is_cancelled (normalize_mm_address mm_address) chain) rows))
        (deactivate (is_cancelled (normalize_mm_address mm_address) chain)) w

  abbrev pub cancel_on : Text → Option Chain → Action ℕ
  cancel_on mm_address none = raise (http_error 400 (codes "Invalid chain"))
  cancel_on mm_address (some chain) = cancel_rows mm_address (some chain)

  -- `cancel_quotes`
  unfoldable pub cancel_quotes : Text → Option Text → Action ℕ
  unfolding cancel_rows
  cancel_quotes mm_address none = cancel_rows mm_address none
  cancel_quotes mm_address (some chain) = cancel_on mm_address (chain_of (lower chain))
