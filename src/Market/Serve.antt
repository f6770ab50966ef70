-- ===== src/Market/Serve.antt =====
-- src/api/routes.py: the quotes that GET /prices serves. The bids are compared as floats; `float` is
-- the place that the float of a bid has in their order. The cache, the circuit breaker's answer and
-- the prices that are shown are left out.
use options_protocol_backend.Prelude.{
  ℕ, ◌+◌, ◌*◌, Bool, true, false, ◌&&◌, Option, none, some, List, [], ◌∷◌, any, filter, ltb, ◌==◌,
  if◌then◌else◌,
}
use options_protocol_backend.Prelude.Text.{Text, text_eq}
use options_protocol_backend.Bridge.{Chain, chain_eq}
use options_protocol_backend.Pricing.Expiries.{cutoff_hours_for_expiry}
use options_protocol_backend.Market.{QuoteRow}

abbrev pub nat_eq? : Option ℕ → Option ℕ → Bool
nat_eq? none none = true
nat_eq? (some a) (some b) = a == b
nat_eq? _ _ = false

abbrev pub bool_eq? : Option Bool → Option Bool → Bool
bool_eq? none none = true
bool_eq? (some true) (some true) = true
bool_eq? (some false) (some false) = true
bool_eq? _ _ = false

-- the key of the dictionary: strike, expiry and kind
unfoldable pub same_option : QuoteRow → QuoteRow → Bool
same_option q r =
    nat_eq? q.strike_price r.strike_price
    && (nat_eq? q.expiry r.expiry && bool_eq? q.is_put r.is_put)

module _ (float : ℕ → ℕ) where
  -- one round of the loop; a key keeps its place
  unfoldable pub insert_best : QuoteRow → List QuoteRow → List QuoteRow
  unfolding same_option
  insert_best q [] = q ∷ []
  insert_best q (b ∷ bs) =
      let rest = insert_best q bs in
      if same_option q b
      then (if ltb (float b.bid_price) (float q.bid_price) then q else b) ∷ bs
      else b ∷ rest

  unfoldable pub best_from : List QuoteRow → List QuoteRow → List QuoteRow
  unfolding insert_best
  best_from best [] = best
  best_from best (q ∷ qs) = best_from (insert_best q best) qs

  -- `_best_quotes_by_otoken`
  unfoldable pub best_quotes_by_otoken : List QuoteRow → List QuoteRow
  unfolding best_from
  best_quotes_by_otoken quotes = best_from [] quotes

-- `column.gt.n` of a nullable column
abbrev pub column_gt : Option ℕ → ℕ → Bool
column_gt none n = false
column_gt (some m) n = ltb n m

module _ (short_hours standard_hours min_quote_ttl : ℕ) (asset : Text) (chain : Chain)
    (now : ℕ) where
  -- the query of `_fetch_active_quotes`
  unfoldable pub is_selected : QuoteRow → Bool
  is_selected r =
      r.is_active
      && (text_eq r.asset asset
          && (chain_eq r.chain chain
              && (ltb (now + min_quote_ttl) r.deadline
                  && column_gt r.expiry (now + short_hours * 3600))))

  abbrev pub past_cutoff : Option ℕ → Bool
  past_cutoff none = false
  past_cutoff (some expiry) =
      ltb (now + cutoff_hours_for_expiry short_hours standard_hours expiry now * 3600) expiry

  unfoldable pub fetch_active_quotes : List QuoteRow → List QuoteRow
  unfolding is_selected cutoff_hours_for_expiry
  fetch_active_quotes rows = filter (λ r. past_cutoff r.expiry) (filter is_selected rows)

  -- the part of `get_prices` from the table to the quotes it shows, `valid` being the addresses of
  -- `_fetch_valid_otoken_addresses`
  unfoldable pub served_quotes : (ℕ → ℕ) → List Text → List QuoteRow → List QuoteRow
  unfolding fetch_active_quotes best_quotes_by_otoken
  served_quotes float valid rows =
      best_quotes_by_otoken float
        (filter (λ r. any (text_eq r.otoken_address) valid) (fetch_active_quotes rows))
