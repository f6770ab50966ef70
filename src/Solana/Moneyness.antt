-- ===== src/Solana/Moneyness.antt =====
-- src/bots/solana_expiry_settler.py, phase 2: `_identify_itm_positions`.
use options_protocol_backend.Prelude.{
  ℕ, Bool, true, false, ◌&&◌, ◌||◌, not, Option, none, some, List, [], ◌∷◌, ltb, ◌==◌,
  if◌then◌else◌,
}
use options_protocol_backend.Prelude.Text.{Text, text_eq}
use options_protocol_backend.Exec.{Result, ok, err, pure, ◌>>=◌, ◌>>◌}
use options_protocol_backend.Solana.State.{
  Position, OtokenInfo, vault_of, otm, Env, Action, ask, db_update,
}
use options_protocol_backend.Solana.Amounts.{strike_price_to_8dec}

-- prices by option token
abbrev pub Cache : Type 0
Cache = List (Text × ℕ)

abbrev pub find_cached : Text → Cache → Option ℕ
find_cached k [] = none
find_cached k ((o, price) ∷ cache) = if text_eq o k then some price else find_cached k cache

abbrev pub is_itm : Bool → ℕ → ℕ → Bool
is_itm is_put price strike = (is_put && ltb price strike) || (not is_put && ltb strike price)

module _ (env : Env) where
  abbrev pub oracle_or_none : Option OtokenInfo → Action ℕ
  oracle_or_none none = pure 0
  oracle_or_none (some info) = ask (λ n. env.oracle_price n info.underlying info.expiry)

  abbrev pub read_oracle : Text → Action ℕ
  read_oracle otoken = do info ← ask (λ n. env.otoken_info n otoken); oracle_or_none info

  abbrev pub oracle_fallback : Text → ℕ → Action ℕ
  oracle_fallback otoken price = if price == 0 then read_oracle otoken else pure price

  -- the price of an option token that is not cached
  unfoldable pub read_price : Text → Action ℕ
  read_price otoken = do
    price ← ask (λ n. env.controller_price n otoken)
    oracle_fallback otoken price

  abbrev pub cached_or_read : Position → Cache → Option ℕ → Action (ℕ × Cache)
  cached_or_read p cache (some price) = pure (price, cache)
  cached_or_read p cache none = do
    price ← read_price p.otoken_address
    pure (price, (p.otoken_address, price) ∷ cache)

  abbrev pub mark_otm : Position → ℕ → Action Bool
  mark_otm p price = do db_update env (vault_of p) (otm (vault_of p) price); pure false

  abbrev pub against_strike : Position → ℕ → Result ℕ → Action Bool
  against_strike p price (err e) = pure false
  against_strike p price (ok strike) =
      if is_itm p.is_put price strike then pure true else mark_otm p price

  -- is the position in the money? one that is not is marked so
  unfoldable pub classify : Position → ℕ → Action Bool
  classify p price =
      if price == 0
      then pure false
      else against_strike p price (strike_price_to_8dec p.strike_price)

  abbrev pub keep_itm : Position → Bool → List Position × Cache → List Position × Cache
  keep_itm p true (itm, cache) = (p ∷ itm, cache)
  keep_itm p false found = found

  abbrev pub with_price :
      (Cache → Action (List Position × Cache))
      → Position
      → ℕ × Cache
      → Action (List Position × Cache)
  with_price rest p (price, cache) = do
    itm ← classify p price
    found ← rest cache
    pure (keep_itm p itm found)

  unfoldable pub identify_itm_positions : List Position → Cache → Action (List Position × Cache)
  unfolding read_price classify
  identify_itm_positions [] cache = pure ([], cache)
  identify_itm_positions (p ∷ ps) cache = do
    priced ← cached_or_read p cache (find_cached p.otoken_address cache)
    with_price (identify_itm_positions ps) p priced
