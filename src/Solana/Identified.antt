-- ===== src/Solana/Identified.antt =====
-- src/bots/solana_expiry_settler.py: the positions that are identified as in the money.
use mathlib.Core.Bool.{true≢false}
use mathlib.Core.Option.{none-ne-some, some-injective}
use mathlib.Core.Path.{subst}
use options_protocol_backend.Prelude.{
  ℕ, Bool, true, false, ◌≡◌, refl, sym, ◌⊎◌, inl, inr, Option, none, some, List, [], ◌∷◌, ◌==◌, All,
  if◌then◌else◌,
}
use options_protocol_backend.Prelude.Text.{Text, text_eq, text_eq_iff, truthy}
use options_protocol_backend.Exec.{Result, ok, err}
use options_protocol_backend.Exec.Post.{
  Post, Post-pure, Post-if, Post-bind, Post-weaken, Post-given,
}
use options_protocol_backend.Solana.State.{
  Position, OtokenInfo, Call, oracle_price_set, controller_price_set, vault_settled, redeemed,
  World, Env, Action,
}
use options_protocol_backend.Solana.Amounts.{strike_price_to_8dec}
use options_protocol_backend.Solana.Moneyness.{
  Cache, find_cached, is_itm, oracle_or_none, read_price, cached_or_read, against_strike, classify,
  keep_itm, with_price, identify_itm_positions,
}
use options_protocol_backend.Solana.Quoted.{
  Beyond, is_itm-Beyond, Strike, strike_price_to_8dec-Strike, Quoted,
}
use options_protocol_backend.Solana.Rules.{On, is_other, Post-ask, Post-db_update}

module _ (env : Env) where
  -- the chain has that price for the option token, in the token's account or at the oracle; 0 is none
  abbrev pub Priced : Text → ℕ → Type 0
  Priced otoken price =
      (price ≡ 0)
      ⊎ (((n : ℕ) × (env.controller_price n otoken ≡ ok price))
          ⊎ ((n : ℕ) × (m : ℕ) × (info : OtokenInfo) × (env.otoken_info n otoken ≡ ok (some info))
              × (env.oracle_price m info.underlying info.expiry ≡ ok price)))

  -- the position is in the money at a price of the chain: below the strike of a put, or above that of
  -- a call
  abbrev pub InTheMoney : Position → Type 0
  InTheMoney p =
      (price : ℕ) × (strike : ℕ) × Priced p.otoken_address price
      × ((price == 0) ≡ false)
      × Strike p.strike_price strike
      × Beyond p.is_put price strike

  abbrev pub SoundCall : Call → Type 0
  SoundCall (redeemed p spent) = InTheMoney p × (truthy p.mm_address ≡ true) × Quoted env p spent
  SoundCall _ = Unit

  abbrev pub Sound : List Call → Type 0
  Sound cs = All SoundCall cs

  pub other-Sound : (c : Call) (cs : List Call) → is_other c ≡ true → Sound cs → Sound (c ∷ cs)
  other-Sound (oracle_price_set u e p) cs o h = (tt, h)
  other-Sound (controller_price_set t) cs o h = (tt, h)
  other-Sound (vault_settled k) cs o h = (tt, h)
  other-Sound (redeemed p m) cs o h = absurd (true≢false (sym o))

  abbrev pub S : World → Type 0
  S = On Sound

  Post-oracle :
      (otoken : Text) (info : Option OtokenInfo)
      → Post
          (λ w. S w × ((n : ℕ) × (env.otoken_info n otoken ≡ ok info)))
          (oracle_or_none env info)
          (λ price w. S w × Priced otoken price)
          (λ _. S)
  Post-oracle otoken none = Post-pure 0 (λ w h. (h.0, inl refl))
  Post-oracle otoken (some info) =
      Post-given (λ w h. h.1)
        (λ found.
          Post-weaken (Post-ask Sound (λ n. env.oracle_price n info.underlying info.expiry))
            (λ w h. h.0) (λ price w h. (h.0, inr (inr (found.0, h.1.0, info, found.1, h.1.1))))
            (λ _ w h. h))

  -- a price from the chain
  Post-read_price :
      (otoken : Text)
      → Post S (read_price env otoken) (λ price w. S w × Priced otoken price) (λ _. S)
  unfolding read_price
  Post-read_price otoken = Post-bind (Post-ask Sound (λ n. env.controller_price n otoken)) (λ price.
      Post-if (price == 0) _ _
        (λ _.
          Post-bind
            (Post-weaken (Post-ask Sound (λ n. env.otoken_info n otoken)) (λ w h. h.0) (λ _ w h. h)
              (λ _ w h. h))
            (λ info. Post-oracle otoken info))
        (λ _. Post-pure price (λ w h. (h.0, inr (inl h.1)))))

  -- a cache of such prices
  abbrev pub Cached : Cache → Type 0
  Cached cache = All (λ e. Priced e.0 e.1) cache

  found_case :
      (k o : Text) (q price : ℕ) (rest : Option ℕ) (b : Bool)
      → text_eq o k ≡ b
      → (if b then some q else rest) ≡ some price
      → Priced o q
      → (rest ≡ some price → Priced k price)
      → Priced k price
  found_case k o q price rest true same e h next =
      subst (λ x. Priced k x) (some-injective _ _ e)
        (subst (λ t. Priced t q) ((text_eq_iff o k).0 same) h)
  found_case k o q price rest false same e h next = next e

  found-Priced :
      (k : Text) (cache : Cache) (price : ℕ)
      → find_cached k cache ≡ some price
      → Cached cache
      → Priced k price
  found-Priced k [] price e h = absurd (none-ne-some _ e)
  found-Priced k ((o, q) ∷ cache) price e (hq, h) =
      found_case k o q price (find_cached k cache) (text_eq o k) refl e hq
        (λ r. found-Priced k cache price r h)

  Post-cached_or_read :
      (p : Position) (cache : Cache) (found : Option ℕ)
      → find_cached p.otoken_address cache ≡ found
      → Cached cache
      → Post S
          (cached_or_read env p cache found)
          (λ r w. S w × (Priced p.otoken_address r.0 × Cached r.1))
          (λ _. S)
  Post-cached_or_read p cache (some price) e h =
      Post-pure (price, cache) (λ w s. (s, (found-Priced p.otoken_address cache price e h, h)))
  Post-cached_or_read p cache none e h = Post-bind (Post-read_price p.otoken_address) (λ price.
      Post-pure (price, (p.otoken_address, price) ∷ cache) (λ w s. (s.0, (s.1, (s.1, h)))))

  Post-against_strike :
      (p : Position) (price : ℕ) (strike : Result ℕ)
      → strike_price_to_8dec p.strike_price ≡ strike
      → Priced p.otoken_address price
      → (price == 0) ≡ false
      → Post S
          (against_strike env p price strike)
          (λ itm w. S w × (itm ≡ true → InTheMoney p))
          (λ _. S)
  Post-against_strike p price (err e) s priced nonzero =
      Post-pure false (λ w h. (h, λ t. absurd (true≢false (sym t))))
  Post-against_strike p price (ok strike) s priced nonzero =
      Post-if (is_itm p.is_put price strike) _ _
        (λ itm. Post-pure true (λ w h. (
          h,
          λ _. (
            price,
            strike,
            priced,
            nonzero,
            strike_price_to_8dec-Strike p.strike_price strike s,
            is_itm-Beyond p.is_put price strike itm,
          ),
        )))
        (λ _.
          Post-bind (Post-db_update Sound env _ _)
            (λ _. Post-pure false (λ w h. (h, λ t. absurd (true≢false (sym t))))))

  Post-classify :
      (p : Position) (price : ℕ)
      → Priced p.otoken_address price
      → Post S (classify env p price) (λ itm w. S w × (itm ≡ true → InTheMoney p)) (λ _. S)
  unfolding classify
  Post-classify p price priced =
      Post-if (price == 0) _ _ (λ _. Post-pure false (λ w h. (h, λ t. absurd (true≢false (sym t)))))
        (λ nonzero.
          Post-against_strike p price (strike_price_to_8dec p.strike_price) refl priced nonzero)

  abbrev pub Found : List Position × Cache → World → Type 0
  Found r w = S w × (All InTheMoney r.0 × Cached r.1)

  keep-Found :
      (p : Position) (itm : Bool) (r : List Position × Cache) (w : World)
      → (itm ≡ true → InTheMoney p)
      → Found r w
      → Found (keep_itm env p itm r) w
  keep-Found p true (ps, cache) w i h = (h.0, ((i refl, h.1.0), h.1.1))
  keep-Found p false (ps, cache) w i h = h

  Post-with_price :
      (rest : Cache → Action (List Position × Cache)) (p : Position) (r : ℕ × Cache)
      → ((cache : Cache) → Cached cache → Post S (rest cache) Found (λ _. S))
      → Priced p.otoken_address r.0 × Cached r.1
      → Post S (with_price env rest p r) Found (λ _. S)
  Post-with_price rest p (price, cache) next h = Post-bind (Post-classify p price h.0) (λ itm.
      Post-given (λ w s. s.1)
        (λ i.
          Post-bind (Post-weaken (next cache h.1) (λ w s. s.0) (λ _ w s. s) (λ _ w s. s))
            (λ found. Post-pure (keep_itm env p itm found) (λ w f. keep-Found p itm found w i f))))

  pub Post-identify_itm_positions :
      (ps : List Position) (cache : Cache)
      → Cached cache
      → Post S (identify_itm_positions env ps cache) Found (λ _. S)
  unfolding identify_itm_positions
  Post-identify_itm_positions [] cache h = Post-pure ([], cache) (λ w s. (s, (tt, h)))
  Post-identify_itm_positions (p ∷ ps) cache h =
      Post-bind (Post-cached_or_read p cache (find_cached p.otoken_address cache) refl h) (λ r.
        Post-given (λ w s. s.1)
          (λ priced.
            Post-weaken
              (Post-with_price (identify_itm_positions env ps) p r (Post-identify_itm_positions ps)
                priced)
              (λ w s. s.0) (λ _ w s. s) (λ _ w s. s)))
