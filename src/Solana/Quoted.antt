-- ===== src/Solana/Quoted.antt =====
-- src/bots/solana_expiry_settler.py: what a position is worth and what its redemption may spend, written
-- out apart from the code that computes it.
use mathlib.Core.Path.{subst, ◌∙◌}
use options_protocol_backend.Prelude.{
  ℕ, ◌-◌, ◌*◌, ◌/◌, ◌^◌, ◌≤◌, ◌<◌, Bool, true, false, ◌≡◌, refl, ◌⊎◌, Option, none, some, ltb,
  if◌then◌else◌, arith,
}
use options_protocol_backend.Prelude.Text.{Text}
use options_protocol_backend.Prelude.Int.{ℤ, pos, negsuc, pos_part}
use options_protocol_backend.Exec.{ok}
use options_protocol_backend.Solana.State.{Decimal, Position, OtokenInfo, exact_in, exact_out, Env}
use options_protocol_backend.Solana.Amounts.{
  strike_of, strike_price_to_8dec, compute_solana_contra_amount, compute_solana_collateral_amount,
}
use options_protocol_backend.Solana.Moneyness.{is_itm}

-- below the strike of a put, above that of a call
abbrev pub Beyond : Bool → ℕ → ℕ → Type 0
Beyond true price strike = price < strike
Beyond false price strike = strike < price

pub is_itm-Beyond :
    (is_put : Bool) (price strike : ℕ)
    → is_itm is_put price strike ≡ true
    → Beyond is_put price strike
is_itm-Beyond true price strike h = ground (arith, h)
is_itm-Beyond false price strike h = ground (arith, h)

-- The strike in 8 decimals: a coefficient of less than a million units is in units, another one has
-- 8 decimals already.
abbrev pub Strike : Option Decimal → ℕ → Type 0
Strike none strike = ⊥
Strike (some d) strike =
    (n : ℕ) × (d.coefficient ≡ pos n)
    × (((n < 1000000 * 10 ^ d.scale) × (strike ≡ n * 100000000 / 10 ^ d.scale))
        ⊎ ((1000000 * 10 ^ d.scale ≤ n) × (strike ≡ n / 10 ^ d.scale)))

strike_of-Strike :
    (n scale strike : ℕ)
    → strike_of (pos n) scale ≡ ok strike
    → ((n < 1000000 * 10 ^ scale) × (strike ≡ n * 100000000 / 10 ^ scale))
      ⊎ ((1000000 * 10 ^ scale ≤ n) × (strike ≡ n / 10 ^ scale))
strike_of-Strike n scale strike h = ground (arith, h)

put_contra :
    (a s decimals contra : ℕ)
    → compute_solana_contra_amount (pos a) (pos s) true decimals ≡ ok contra
    → (8 ≤ decimals) × (contra ≡ a * 10 ^ (decimals - 8))
unfolding compute_solana_contra_amount
put_contra a s decimals contra h = ground (arith, h)

call_contra :
    (a s decimals contra : ℕ)
    → compute_solana_contra_amount (pos a) (pos s) false decimals ≡ ok contra
    → (6 ≤ decimals) × (decimals ≤ 16) × (contra ≡ a * s / 10 ^ (16 - decimals))
unfolding compute_solana_contra_amount
call_contra a s decimals contra h = ground (arith, h)

call_collateral :
    (a s decimals collateral : ℕ)
    → compute_solana_collateral_amount a s false decimals ≡ ok collateral
    → (8 ≤ decimals) × (collateral ≡ a * 10 ^ (decimals - 8))
unfolding compute_solana_collateral_amount
call_collateral a s decimals collateral h = ground (arith, h)

negative_amount :
    (a : ℕ) (strike : ℤ) (b : Bool) (decimals contra : ℕ)
    → compute_solana_contra_amount (negsuc a) strike b decimals ≡ ok contra
    → ⊥
unfolding compute_solana_contra_amount
negative_amount a strike b decimals contra h = ground (arith, h)

negative_strike :
    (a s : ℕ) (b : Bool) (decimals contra : ℕ)
    → compute_solana_contra_amount (pos a) (negsuc s) b decimals ≡ ok contra
    → ⊥
unfolding compute_solana_contra_amount
negative_strike a s b decimals contra h = ground (arith, h)

pub strike_price_to_8dec-Strike :
    (o : Option Decimal) (strike : ℕ) → strike_price_to_8dec o ≡ ok strike → Strike o strike
unfolding strike_price_to_8dec
strike_price_to_8dec-Strike none strike h = ground (arith, h)
strike_price_to_8dec-Strike (some d) strike h = with_sign d.coefficient refl h
  where
    with_sign :
        (z : ℤ) → d.coefficient ≡ z → strike_of z d.scale ≡ ok strike → Strike (some d) strike
    with_sign (pos n) e k = (n, e, strike_of-Strike n d.scale strike k)
    with_sign (negsuc n) e k = ground (arith, k)

module _ (env : Env) where
  abbrev MintDecimals : Text → ℕ → Type 0
  MintDecimals mint decimals = (n : ℕ) × (env.mint_decimals n mint ≡ ok decimals)

  -- What a quote allows to spend. For a put it is what the quote asks for exactly the amount owed, the
  -- position's amount, of 8 decimals, in the decimals of the underlying. For a call it is the
  -- position's amount in the decimals of the collateral, where the quote for it covers the amount
  -- owed, amount * strike, of 16 decimals, in the decimals of the strike asset.
  abbrev QuotedFor : Bool → ℕ → ℕ → OtokenInfo → ℕ → Type 0
  QuotedFor true amount strike info spent =
      (decimals : ℕ) × MintDecimals info.underlying decimals
      × (8 ≤ decimals)
      × ((n : ℕ) × (env.jupiter_quote n info.collateral_mint info.underlying
              (amount * 10 ^ (decimals - 8)) exact_out
            ≡ ok spent))
  QuotedFor false amount strike info spent =
      (decimals : ℕ) × MintDecimals info.strike_asset decimals
      × ((6 ≤ decimals) × (decimals ≤ 16))
      × ((own : ℕ) × MintDecimals info.collateral_mint own
          × (8 ≤ own)
          × (spent ≡ amount * 10 ^ (own - 8)))
      × ((n : ℕ) × (out : ℕ) × (env.jupiter_quote n info.collateral_mint info.strike_asset spent
              exact_in
            ≡ ok out)
          × (amount * strike / 10 ^ (16 - decimals) ≤ out))

  -- The terms are those that the chain has for the option token of the position.
  abbrev pub Quoted : Position → ℕ → Type 0
  Quoted p spent =
      (info : OtokenInfo) × ((n : ℕ) × (env.otoken_info n p.otoken_address ≡ ok (some info)))
      × ((amount : ℕ) × (strike : ℕ) × (p.amount ≡ pos amount)
          × (info.strike_price ≡ pos strike)
          × QuotedFor info.is_put amount strike info spent)

  -- the answer of the quote, where the bot spends `spent` on a `contra` of the mint `mint`
  abbrev pub Spent : Bool → OtokenInfo → Text → ℕ → ℕ → ℕ → Type 0
  Spent true info mint contra collateral spent =
      (n : ℕ) × (env.jupiter_quote n info.collateral_mint mint contra exact_out ≡ ok spent)
  Spent false info mint contra collateral spent =
      (spent ≡ collateral)
      × ((n : ℕ) × (out : ℕ) × (env.jupiter_quote n info.collateral_mint mint spent exact_in
            ≡ ok out)
          × (ltb out contra ≡ false))

  -- what the bot has read and computed
  abbrev Evidence : Bool → ℤ → ℤ → OtokenInfo → ℕ → Type 0
  Evidence is_put amount strike info spent =
      (contra : ℕ) × (decimals : ℕ) × (collateral : ℕ) × (own : ℕ) × MintDecimals
        (if is_put then info.underlying else info.strike_asset) decimals
      × MintDecimals info.collateral_mint own
      × (compute_solana_contra_amount amount strike is_put decimals ≡ ok contra)
      × (compute_solana_collateral_amount (pos_part amount) (pos_part strike) is_put own
          ≡ ok collateral)
      × Spent is_put info (if is_put then info.underlying else info.strike_asset) contra collateral
          spent

  pub Evidence-QuotedFor :
      (is_put : Bool) (amount strike : ℤ) (info : OtokenInfo) (spent : ℕ)
      → Evidence is_put amount strike info spent
      → (a : ℕ) × (s : ℕ) × (amount ≡ pos a) × (strike ≡ pos s) × QuotedFor is_put a s info spent
  Evidence-QuotedFor b (negsuc a) strike info spent (c, d, l, own, dec, odec, owed, due, q) =
      absurd (negative_amount a strike b d c owed)
  Evidence-QuotedFor b (pos a) (negsuc s) info spent (c, d, l, own, dec, odec, owed, due, q) =
      absurd (negative_strike a s b d c owed)
  Evidence-QuotedFor true (pos a) (pos s) info spent (c, d, l, own, dec, odec, owed, due, q) =
      let (scaled, value) = put_contra a s d c owed in
      (
        a,
        s,
        refl,
        refl,
        (
          d,
          dec,
          scaled,
          (
            q.0,
            subst
                (λ x.
                  env.jupiter_quote q.0 info.collateral_mint info.underlying x exact_out ≡ ok spent)
                value q.1,
          ),
        ),
      )
  Evidence-QuotedFor false (pos a) (pos s) info spent (c, d, l, own, dec, odec, owed, due, q) =
      let (low, high, value) = call_contra a s d c owed in
      let (scaled, worth) = call_collateral a s own l due in
      (
        a,
        s,
        refl,
        refl,
        (
          d,
          dec,
          (low, high),
          (own, odec, scaled, q.0 ∙ worth),
          (q.1.0, q.1.1, q.1.2, covers q.1.1 c (a * s / 10 ^ (16 - d)) q.1.3 value),
        ),
      )
    where
      covers : (out c c' : ℕ) → ltb out c ≡ false → c ≡ c' → c' ≤ out
      covers out c c' h e = ground (arith, h, e)
