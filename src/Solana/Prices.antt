-- ===== src/Solana/Prices.antt =====
-- src/bots/solana_expiry_settler.py, phase 0: `_ensure_expiry_prices_set` and its second pass.
use options_protocol_backend.Prelude.{
  ℕ, Bool, Option, none, some, List, [], ◌∷◌, any, ◌==◌, if◌then◌else◌,
}
use options_protocol_backend.Prelude.Text.{Text, text_eq}
use options_protocol_backend.Exec.{Exn, pure, raise, try_except, for_each, ◌>>=◌, ◌>>◌}
use options_protocol_backend.Solana.State.{
  Position, OtokenInfo, oracle_price_set, controller_price_set, Env, Action, ask, send,
}

-- the first position of each option token
unfoldable pub first_of_each : List Text → List Position → List Position
first_of_each seen [] = []
first_of_each seen (p ∷ ps) =
    let rest = first_of_each (p.otoken_address ∷ seen) ps in
    let others = first_of_each seen ps in
    if any (λ o. text_eq o p.otoken_address) seen then others else p ∷ rest

module _ (env : Env) where
  -- an exception that the clause does not name goes on
  abbrev pub only : {A : Type 0} → (Exn → Bool) → Action A → Exn → Action A
  only named handler e = if named e then handler else raise e

  abbrev pub wait_for_price : OtokenInfo → Action ℕ
  wait_for_price info = ask (λ n. env.wait_for_oracle_price n info.underlying info.expiry)

  -- the body of the `try`
  unfoldable pub finalize_oracle_price : Text → OtokenInfo → Action ℕ
  finalize_oracle_price asset info = do
    price ← ask (λ n. env.pyth_price n asset)
    price_update ← ask (λ n. env.fresh_price_update n asset)
    signature ←
        send (λ n. env.set_oracle_price n info.underlying info.expiry price price_update)
          (oracle_price_set info.underlying info.expiry price)
    wait_for_price info

  abbrev pub price_or_finalize : Text → OtokenInfo → ℕ → Action ℕ
  price_or_finalize asset info price =
      if price == 0
      then try_except (finalize_oracle_price asset info)
          (only env.is_finalize_error (wait_for_price info))
      else pure price

  unfoldable pub set_controller_price : Text → Action Unit
  set_controller_price otoken =
      try_except
        (send (λ n. env.set_controller_price n otoken) (controller_price_set otoken) >> pure tt)
        (only env.is_send_error (pure tt))

  abbrev pub set_if_final : Text → ℕ → Action Unit
  set_if_final otoken price = if price == 0 then pure tt else set_controller_price otoken

  abbrev pub finalize : Position → Text → Option OtokenInfo → Action Unit
  finalize p asset none = pure tt
  finalize p asset (some info) = do
    oracle ← ask (λ n. env.oracle_price n info.underlying info.expiry)
    price ← price_or_finalize asset info oracle
    set_if_final p.otoken_address price

  abbrev pub finalize_known : Position → Text → Action Unit
  finalize_known p asset = do
    info ← ask (λ n. env.otoken_info n p.otoken_address)
    finalize p asset info

  abbrev pub finalize_asset : Position → Option Text → Action Unit
  finalize_asset p (some (c ∷ s)) =
      if any (λ a. text_eq a (c ∷ s)) env.known_assets then finalize_known p (c ∷ s) else pure tt
  finalize_asset p _ = pure tt

  -- one round of the first pass
  unfoldable pub ensure_expiry_price : Position → Action Unit
  unfolding finalize_oracle_price set_controller_price
  ensure_expiry_price p = do
    existing ← ask (λ n. env.controller_price n p.otoken_address)
    if existing == 0 then finalize_asset p p.asset else pure tt

  abbrev pub copy_price : Position → Option OtokenInfo → Action Unit
  copy_price p none = pure tt
  copy_price p (some info) = do
    price ← ask (λ n. env.oracle_price n info.underlying info.expiry)
    set_if_final p.otoken_address price

  abbrev pub retry_missing : Position → Action Unit
  retry_missing p = do info ← ask (λ n. env.otoken_info n p.otoken_address); copy_price p info

  -- one round of `_retry_missing_controller_expiry_prices`
  unfoldable pub retry_controller_price : Position → Action Unit
  unfolding set_controller_price
  retry_controller_price p = do
    existing ← ask (λ n. env.controller_price n p.otoken_address)
    if existing == 0 then retry_missing p else pure tt

  unfoldable pub ensure_expiry_prices_set : List Position → Action Unit
  unfolding ensure_expiry_price retry_controller_price first_of_each
  ensure_expiry_prices_set positions = do
    for_each (first_of_each [] positions) ensure_expiry_price
    for_each (first_of_each [] positions) retry_controller_price
