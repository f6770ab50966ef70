-- ===== src/Solana/Redeemed.antt =====
-- src/bots/solana_expiry_settler.py: which positions are redeemed, and at what price of the swap.
use options_protocol_backend.Prelude.{
  ℕ, Bool, true, false, ◌≡◌, refl, ap, Option, none, some, List, [], ◌∷◌, ltb, All,
}
use options_protocol_backend.Prelude.Text.{Text, truthy}
use options_protocol_backend.Prelude.Int.{pos_part}
use options_protocol_backend.Exec.{ok, pure, lift, for_each, ◌>>=◌}
use options_protocol_backend.Exec.Post.{
  Post, Outcome-always, Post-pure, Post-raise, Post-if, Post-bind, Post-bind-lift, Post-try_except,
  Post-weaken, Post-given,
}
use options_protocol_backend.Solana.State.{
  Position, OtokenInfo, VaultData, redeemed, World, Env, ask,
}
use options_protocol_backend.Solana.Amounts.{
  compute_solana_contra_amount, compute_solana_collateral_amount,
}
use options_protocol_backend.Solana.Moneyness.{Cache}
use options_protocol_backend.Solana.Redeem.{
  contra_mint, mark_failed, ensure_accounts, max_spent, prepare, deliver, deliver_prepared,
  prepare_and_deliver, redeem_known, redeem_for, redeem_position, redeem_itm_positions,
}
use options_protocol_backend.Solana.Cycle.{
  add_pending, settle_expired, redeem_found, deliver_settled, settle_once,
}
use options_protocol_backend.Solana.Rules.{
  Post-ask, Post-asked, Post-send, Post-db_update, Keeps-ensure_expiry_prices_set,
  Keeps-settle_vaults,
}
use options_protocol_backend.Solana.Identified.{
  InTheMoney, Sound, S, other-Sound, Post-identify_itm_positions,
}
use options_protocol_backend.Solana.Quoted.{Quoted, Spent, Evidence-QuotedFor}

module _ (env : Env) where
  Post-mark_failed :
      (p : Position) (price : ℕ) → Post (S env) (mark_failed env p price) (λ _. S env) (λ _. S env)
  Post-mark_failed p price = Post-db_update (Sound env) env _ _

  Post-ensure_accounts :
      (p : Position) (mm : Text) (info : OtokenInfo)
      → Post (S env) (ensure_accounts env p mm info) (λ _. S env) (λ _. S env)
  unfolding ensure_accounts
  Post-ensure_accounts p mm info = Post-bind (Post-asked (Sound env) _) (λ _.
      Post-bind (Post-asked (Sound env) _) (λ _.
        Post-bind (Post-asked (Sound env) _)
          (λ _. Post-bind (Post-asked (Sound env) _) (λ _. Post-asked (Sound env) _))))

  Post-max_spent :
      (is_put : Bool) (info : OtokenInfo) (contra collateral : ℕ)
      → Post
          (S env)
          (max_spent env is_put info contra collateral)
          (λ spent w. S env w × Spent env is_put info (contra_mint info) contra collateral spent)
          (λ _. S env)
  Post-max_spent true info contra collateral = Post-ask (Sound env) _
  Post-max_spent false info contra collateral = Post-bind (Post-ask (Sound env) _) (λ out.
      Post-if (ltb out contra) _ _ (λ _. Post-raise _ (λ w h. h.0))
        (λ covered. Post-pure collateral (λ w h. (h.0, (refl, (h.1.0, out, h.1.1, covered))))))

  -- the rest of `prepare`, once the decimals of both mints are read
  Post-spend :
      (p : Position) (info : OtokenInfo) (vault : VaultData)
      → (n : ℕ) × (env.otoken_info n p.otoken_address ≡ ok (some info))
      → (decimals own : ℕ) → (n : ℕ) × (env.mint_decimals n (contra_mint info) ≡ ok decimals)
      → (n : ℕ) × (env.mint_decimals n info.collateral_mint ≡ ok own)
      → Post {A = ℕ × ℕ}
          (S env)
          (do
            contra ←
                lift (compute_solana_contra_amount p.amount info.strike_price info.is_put decimals)
            collateral ← lift (
                compute_solana_collateral_amount
                  (pos_part p.amount)
                  (pos_part info.strike_price)
                  info.is_put
                  own)
            spent ← max_spent env info.is_put info contra collateral
            built ← ask (λ n. env.build_redeem n p vault info spent)
            pure (contra, spent))
          (λ r w. S env w × Quoted env p r.1)
          (λ _. S env)
  Post-spend p info vault here decimals own dec odec =
      Post-bind-lift (compute_solana_contra_amount p.amount info.strike_price info.is_put decimals)
        _
        (λ contra owed.
          Post-bind-lift
            (compute_solana_collateral_amount (pos_part p.amount) (pos_part info.strike_price)
              info.is_put own)
            _
            (λ collateral due.
              Post-bind (Post-max_spent info.is_put info contra collateral) (λ spent.
                Post-given (λ w h. h.1)
                  (λ quote.
                    let quoted =
                      Evidence-QuotedFor env info.is_put p.amount info.strike_price info spent
                        (contra, decimals, collateral, own, dec, odec, owed, due, quote) in
                    Post-bind
                      (Post-weaken (Post-asked (Sound env) _) (λ w h. h.0) (λ _ w h. h)
                        (λ _ w h. h))
                      (λ _. Post-pure (contra, spent) (λ w h. (h, (info, here, quoted)))))))
            (λ e w h. h))
        (λ e w h. h)

  Post-prepare :
      (p : Position) (info : OtokenInfo) (vault : VaultData)
      → (n : ℕ) × (env.otoken_info n p.otoken_address ≡ ok (some info))
      → Post (S env) (prepare env p info vault) (λ r w. S env w × Quoted env p r.1) (λ _. S env)
  unfolding prepare
  Post-prepare p info vault here = Post-bind (Post-ask (Sound env) _) (λ decimals.
      Post-given (λ w h. h.1)
        (λ dec.
          Post-weaken
            (Post-bind (Post-ask (Sound env) _) (λ own.
              Post-given (λ w h. h.1)
                (λ odec.
                  Post-weaken (Post-spend p info vault here decimals own dec odec) (λ w h. h.0)
                    (λ _ w h. h) (λ _ w h. h))))
            (λ w h. h.0) (λ _ w h. h) (λ _ w h. h)))

  Post-deliver :
      (p : Position) (price : ℕ) (info : OtokenInfo) (contra spent : ℕ)
      → InTheMoney env p
      → truthy p.mm_address ≡ true
      → Quoted env p spent
      → Post (S env) (deliver env p price info (contra, spent)) (λ _. S env) (λ _. S env)
  unfolding deliver
  Post-deliver p price info contra spent itm mm quoted =
      Post-try_except {E = λ _. S env}
        (Post-bind
          (Post-send (Sound env) (Sound env) _ (redeemed p spent) (λ cs h. ((itm, mm, quoted), h)))
          (λ signature.
            Post-bind (Post-db_update (Sound env) env _ _)
              (λ _. Post-db_update (Sound env) env _ _)))
        (λ e. Post-mark_failed p price)

  -- the outcome of the first `try`
  abbrev Prepared : Position → Option (ℕ × ℕ) → World → Type 0
  Prepared p none w = S env w
  Prepared p (some r) w = S env w × Quoted env p r.1

  Post-deliver_prepared :
      (p : Position) (price : ℕ) (info : OtokenInfo) (o : Option (ℕ × ℕ))
      → InTheMoney env p
      → truthy p.mm_address ≡ true
      → Post (Prepared p o) (deliver_prepared env p price info o) (λ _. S env) (λ _. S env)
  Post-deliver_prepared p price info none itm mm = Post-mark_failed p price
  Post-deliver_prepared p price info (some (contra, spent)) itm mm =
      Post-given (λ w h. h.1)
        (λ quoted.
          Post-weaken (Post-deliver p price info contra spent itm mm quoted) (λ w h. h.0)
            (λ _ w h. h) (λ _ w h. h))

  Post-prepare_and_deliver :
      (p : Position) (price : ℕ) (mm : Text) (info : OtokenInfo) (vault : Option VaultData)
      → (n : ℕ) × (env.otoken_info n p.otoken_address ≡ ok (some info))
      → InTheMoney env p
      → truthy p.mm_address ≡ true
      → Post (S env) (prepare_and_deliver env p price mm info vault) (λ _. S env) (λ _. S env)
  Post-prepare_and_deliver p price mm info none here itm has = Post-mark_failed p price
  Post-prepare_and_deliver p price mm info (some vault) here itm has =
      Post-bind (Post-ensure_accounts p mm info) (λ _.
        Post-bind {I = Prepared p}
          (Post-try_except {E = λ _. S env}
            (Post-bind (Post-prepare p info vault here)
              (λ amounts. Post-pure (some amounts) (λ w h. h)))
            (λ e. Post-pure none (λ w h. h)))
          (λ o. Post-deliver_prepared p price info o itm has))

  Post-redeem_known :
      (p : Position) (price : ℕ) (mm : Text) (info : Option OtokenInfo)
      → (n : ℕ) × (env.otoken_info n p.otoken_address ≡ ok info)
      → InTheMoney env p
      → truthy p.mm_address ≡ true
      → Post (S env) (redeem_known env p price mm info) (λ _. S env) (λ _. S env)
  Post-redeem_known p price mm none here itm has = Post-mark_failed p price
  Post-redeem_known p price mm (some info) here itm has =
      Post-bind (Post-asked (Sound env) _)
        (λ vault. Post-prepare_and_deliver p price mm info vault here itm has)

  Post-redeem_for :
      (p : Position) (price : ℕ) (mm : Option Text)
      → InTheMoney env p
      → p.mm_address ≡ mm
      → Post (S env) (redeem_for env p price mm) (λ _. S env) (λ _. S env)
  Post-redeem_for p price none itm e = Post-mark_failed p price
  Post-redeem_for p price (some []) itm e = Post-mark_failed p price
  Post-redeem_for p price (some (c ∷ s)) itm e = Post-bind (Post-ask (Sound env) _) (λ info.
      Post-given (λ w h. h.1)
        (λ here.
          Post-weaken (Post-redeem_known p price (c ∷ s) info here itm (ap truthy e)) (λ w h. h.0)
            (λ _ w h. h) (λ _ w h. h)))

  Post-redeem_all :
      (ps : List Position) (cache : Cache)
      → All (InTheMoney env) ps
      → Post (S env) (redeem_itm_positions env ps cache) (λ _. S env) (λ _. S env)
  unfolding redeem_itm_positions redeem_position for_each
  Post-redeem_all [] cache h = Post-pure tt (λ w s. s)
  Post-redeem_all (p ∷ ps) cache (itm, h) =
      Post-bind (Post-redeem_for p _ p.mm_address itm refl) (λ _. Post-redeem_all ps cache h)

  Post-redeem_found :
      (r : List Position × Cache)
      → All (InTheMoney env) r.0
      → Post (S env) (redeem_found env r) (λ _. S env) (λ _. S env)
  Post-redeem_found ([], cache) h = Post-pure tt (λ w s. s)
  Post-redeem_found (p ∷ ps, cache) h = Post-redeem_all (p ∷ ps) cache h

  Post-deliver_settled :
      (ps : List Position) → Post (S env) (deliver_settled env ps) (λ _. S env) (λ _. S env)
  unfolding deliver_settled
  Post-deliver_settled [] = Post-pure 0 (λ w s. s)
  Post-deliver_settled (p ∷ ps) =
      Post-bind (Post-identify_itm_positions env (p ∷ ps) [] tt) (λ found.
        Post-given (λ w h. h.1.0)
          (λ itm.
            Post-bind
              (Post-weaken (Post-redeem_found found itm) (λ w h. h.0) (λ _ w h. h) (λ _ w h. h))
              (λ _. Post-pure _ (λ w s. s))))

  Post-settle_expired :
      (ps : List Position) → Post (S env) (settle_expired env ps) (λ _. S env) (λ _. S env)
  Post-settle_expired [] = Post-pure [] (λ w s. s)
  Post-settle_expired (p ∷ ps) =
      Post-bind (Keeps-ensure_expiry_prices_set env (Sound env) (other-Sound env) (p ∷ ps))
        (λ _. Keeps-settle_vaults env (Sound env) (other-Sound env) (p ∷ ps))

  -- Whatever fails on the way, a cycle on Solana sends redemptions, whether they answer or raise, only for
  -- positions that are in the money at a price
  -- of the chain and have a market maker, and it lets each swap spend no more than is due, by the
  -- terms that the chain has for the position's option token: for a put what a quote asks for exactly
  -- the position's amount in the decimals of the underlying, for a call the position's amount in the
  -- decimals of the collateral, where a quote for it covers amount * strike in the decimals of the
  -- strike asset.
  pub settle_once-Sound :
      (positions recovery : List Position) (w : World)
      → Sound env w.calls
      → Sound env (settle_once env positions recovery w).1.calls
  unfolding settle_once
  settle_once-Sound positions recovery w h =
      Outcome-always (S env) (settle_once env positions recovery w) (
        Post.at
          (Post-bind (Post-settle_expired positions)
            (λ settled. Post-deliver_settled (add_pending settled recovery)))
          w h)
