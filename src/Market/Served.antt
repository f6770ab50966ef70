-- ===== src/Market/Served.antt =====
-- src/api/routes.py: the quotes that GET /prices serves, against the table.
use mathlib.Core.Bool.{true≢false}
use options_protocol_backend.Prelude.{
  ℕ, ◌+◌, ◌*◌, ◌<◌, Bool, true, false, ◌&&◌, Option, none, some, ◌≡◌, refl, sym, ap, ◌∙◌, inl, inr,
  ◌↔◌, List, [], ◌∷◌, any, filter, ltb, leb, All, All-map, All-Elem, filter-All, Elem, arith,
  Bool-cases,
}
use options_protocol_backend.Prelude.Text.{Text, text_eq, text_eq_iff}
use options_protocol_backend.Bridge.{Chain, base, solana, arc, chain_eq}
use options_protocol_backend.Pricing.Expiries.{cutoff_hours_for_expiry}
use options_protocol_backend.Market.{QuoteRow}
use options_protocol_backend.Market.Serve.{
  column_gt, is_selected, past_cutoff, fetch_active_quotes, best_quotes_by_otoken, served_quotes,
}
use options_protocol_backend.Market.Best.{
  Distinct, Outbid, best_from-All, best_from-Distinct, best_from-Outbid,
}
use options_protocol_backend.Market.Rows.{Elem-filter}

any-Elem : (t : Text) (valid : List Text) → any (text_eq t) valid ≡ true → Elem t valid
any-Elem t [] h = true≢false (sym h)
any-Elem t (v ∷ vs) h = elim (Bool-cases (text_eq t v)) [
  | inl e ↦ inl ((text_eq_iff t v).0 e)
  | inr e ↦ inr (any-Elem t vs (ground (arith, h, e)))
]

Elem-any : (t : Text) (valid : List Text) → Elem t valid → any (text_eq t) valid ≡ true
Elem-any t [] m = elim m [ ]
Elem-any t (v ∷ vs) (inl e) = ground (arith, (text_eq_iff t v).1 e)
Elem-any t (v ∷ vs) (inr m) = ground (arith, Elem-any t vs m)

chain_eq_iff : (c d : Chain) → (chain_eq c d ≡ true) ↔ (c ≡ d)
chain_eq_iff base base = ground arith
chain_eq_iff base solana = ground arith
chain_eq_iff base arc = ground arith
chain_eq_iff solana base = ground arith
chain_eq_iff solana solana = ground arith
chain_eq_iff solana arc = ground arith
chain_eq_iff arc base = ground arith
chain_eq_iff arc solana = ground arith
chain_eq_iff arc arc = ground arith

module _ (short_hours standard_hours min_quote_ttl : ℕ) (asset : Text) (chain : Chain) (now : ℕ)
    (float : ℕ → ℕ) (valid : List Text) where
  -- The option expires after the short cutoff, and after the standard one if it has more than 48
  -- hours.
  abbrev pub BeforeCutoff : ℕ → Type 0
  BeforeCutoff expiry =
      (now + short_hours * 3600 < expiry)
      × (now + 48 * 3600 < expiry → now + standard_hours * 3600 < expiry)

  -- What a quote has to have to be served.
  abbrev pub Servable : QuoteRow → Type 0
  Servable r =
      (r.is_active ≡ true)
      × (r.asset ≡ asset)
      × (r.chain ≡ chain)
      × (now + min_quote_ttl < r.deadline)
      × ((expiry : ℕ) × (r.expiry ≡ some expiry) × BeforeCutoff expiry)
      × Elem r.otoken_address valid

  abbrev passes : QuoteRow → Bool
  passes r =
      is_selected short_hours standard_hours min_quote_ttl asset chain now r
      && (past_cutoff short_hours standard_hours min_quote_ttl asset chain now r.expiry
          && any (text_eq r.otoken_address) valid)

  cutoff-BeforeCutoff :
      (o : Option ℕ)
      → column_gt o (now + short_hours * 3600) ≡ true
      → past_cutoff short_hours standard_hours min_quote_ttl asset chain now o ≡ true
      → (expiry : ℕ) × (o ≡ some expiry) × BeforeCutoff expiry
  unfolding cutoff_hours_for_expiry
  cutoff-BeforeCutoff none h k = cc
  cutoff-BeforeCutoff (some expiry) h k =
      (expiry, refl, (ground (arith, h), (λ later. ground (arith, k, later))))

  BeforeCutoff-cutoff :
      (expiry : ℕ)
      → BeforeCutoff expiry
      → past_cutoff short_hours standard_hours min_quote_ttl asset chain now (some expiry) ≡ true
  unfolding cutoff_hours_for_expiry
  BeforeCutoff-cutoff expiry h = elim (Bool-cases (leb expiry (now + 48 * 3600))) [
    | inl e ↦ rw e (ground (arith, h.0))
    | inr e ↦ rw e (ground (arith, h.1 (ground (arith, e))))
  ]

  and_parts : (a b : Bool) → (a && b) ≡ true → (a ≡ true) × (b ≡ true)
  and_parts true b h = (refl, h)
  and_parts false b h = absurd (true≢false (sym h))

  and_true : (a b : Bool) → a ≡ true → b ≡ true → (a && b) ≡ true
  and_true a b h k = rw h k

  selected-parts :
      (r : QuoteRow)
      → is_selected short_hours standard_hours min_quote_ttl asset chain now r ≡ true
      → (r.is_active ≡ true)
        × (r.asset ≡ asset)
        × (r.chain ≡ chain)
        × (now + min_quote_ttl < r.deadline)
        × (column_gt r.expiry (now + short_hours * 3600) ≡ true)
  unfolding is_selected
  selected-parts r h =
      let (active, h1) = and_parts r.is_active _ h in
      let (same, h2) = and_parts (text_eq r.asset asset) _ h1 in
      let (on, h3) = and_parts (chain_eq r.chain chain) _ h2 in
      let (early, open_) = and_parts (ltb (now + min_quote_ttl) r.deadline) _ h3 in
      (
        active,
        (text_eq_iff r.asset asset).0 same,
        (chain_eq_iff r.chain chain).0 on,
        ground (arith, early),
        open_,
      )

  Servable-selected :
      (r : QuoteRow)
      → Servable r
      → is_selected short_hours standard_hours min_quote_ttl asset chain now r ≡ true
  unfolding is_selected
  Servable-selected r (active, same, on, early, (expiry, e, open_), m) =
      and_true r.is_active _ active (
        and_true (text_eq r.asset asset) _ ((text_eq_iff r.asset asset).1 same) (
          and_true (chain_eq r.chain chain) _ ((chain_eq_iff r.chain chain).1 on) (
            and_true (ltb (now + min_quote_ttl) r.deadline) _ (ground (arith, early))
              (ap (λ o. column_gt o (now + short_hours * 3600)) e ∙ ground (arith, open_.0)))))

  Servable-past_cutoff :
      (r : QuoteRow)
      → Servable r
      → past_cutoff short_hours standard_hours min_quote_ttl asset chain now r.expiry ≡ true
  Servable-past_cutoff r (active, same, on, early, (expiry, e, open_), m) =
      ap (past_cutoff short_hours standard_hours min_quote_ttl asset chain now) e
      ∙ BeforeCutoff-cutoff expiry open_

  -- the rows that reach the loop
  abbrev reaching : List QuoteRow → List QuoteRow
  reaching rows =
      filter (λ r. any (text_eq r.otoken_address) valid)
        (fetch_active_quotes short_hours standard_hours min_quote_ttl asset chain now rows)

  reaching-Servable : (rows : List QuoteRow) → All (λ r. Elem r rows × Servable r) (reaching rows)
  unfolding fetch_active_quotes
  reaching-Servable rows =
      All-map _ (λ r. Elem r rows × Servable r)
        (λ r h.
          let (active, same, on, early, open_) = selected-parts r h.0.0.1 in
          (
            h.0.0.0,
            (
              active,
              same,
              on,
              early,
              cutoff-BeforeCutoff r.expiry open_ h.0.1,
              any-Elem r.otoken_address valid h.1,
            ),
          ))
        (reaching rows)
        (filter-All _ (λ r. any (text_eq r.otoken_address) valid) _
          (filter-All _
            (λ r. past_cutoff short_hours standard_hours min_quote_ttl asset chain now r.expiry) _
            (filter-All (λ r. Elem r rows)
              (is_selected short_hours standard_hours min_quote_ttl asset chain now) rows
              (All-Elem rows))))

  Servable-reaching :
      (r : QuoteRow) (rows : List QuoteRow) → Elem r rows → Servable r → Elem r (reaching rows)
  unfolding fetch_active_quotes
  Servable-reaching r rows m s =
      Elem-filter (λ x. any (text_eq x.otoken_address) valid) r _
        (Elem-any r.otoken_address valid s.5)
        (Elem-filter
          (λ x. past_cutoff short_hours standard_hours min_quote_ttl asset chain now x.expiry) r _
          (Servable-past_cutoff r s)
          (Elem-filter (is_selected short_hours standard_hours min_quote_ttl asset chain now) r rows
            (Servable-selected r s) m))

  abbrev pub ServesBest : List QuoteRow → List QuoteRow → Type 0
  ServesBest rows served =
      All (λ r. Elem r rows × Servable r) served
      × All (λ r. Servable r → Outbid float served r) rows
      × Distinct served

  -- The quotes that are shown are rows of the table that are active, for the asset and its chain,
  -- with a deadline and an expiry far enough, and for an oToken that is available. Each such row of
  -- the table is shown, or a quote for its option is whose bid is as high. No option is shown twice.
  pub served_quotes-ServesBest :
      (rows : List QuoteRow)
      → ServesBest rows
          (served_quotes short_hours standard_hours min_quote_ttl asset chain now float valid rows)
  unfolding served_quotes
  served_quotes-ServesBest rows = (
    best_from-All float (λ r. Elem r rows × Servable r) [] (reaching rows) tt
        (reaching-Servable rows),
    All-map (λ r. Elem r rows)
        (λ r. Servable r → Outbid float (best_quotes_by_otoken float (reaching rows)) r)
        (λ r m s. best_from-Outbid float r [] (reaching rows) (Servable-reaching r rows m s)) rows
        (All-Elem rows),
    best_from-Distinct float [] (reaching rows) tt,
  )
