-- ===== src/Solana/Rules.antt =====
-- Rules for the steps of src/bots/solana_expiry_settler.py: what they do to the calls, and that phases
-- 0 and 1 redeem nothing.
use options_protocol_backend.Prelude.{
  ℕ, Bool, true, false, ◌≡◌, refl, Option, none, some, List, [], ◌∷◌, any, ◌==◌,
}
use options_protocol_backend.Prelude.Text.{Text, text_eq}
use options_protocol_backend.Exec.{Exn, Result, ok, err}
use options_protocol_backend.Exec.Post.{
  Post, Outcome, Post-pure, Post-raise, Post-if, Post-bind, Post-try_except, Post-weaken,
  Post-for_each,
}
use options_protocol_backend.Solana.State.{
  Position, OtokenInfo, VaultData, vault_of, Vault, Call, oracle_price_set, controller_price_set,
  vault_settled, redeemed, Write, World, Env, Action, ask, send, sent, wrote, db_update, next_tick,
}
use options_protocol_backend.Solana.Prices.{
  first_of_each, only, finalize_oracle_price, price_or_finalize, set_controller_price, set_if_final,
  finalize, finalize_asset, ensure_expiry_price, copy_price, retry_controller_price,
  ensure_expiry_prices_set,
}
use options_protocol_backend.Solana.Vaults.{
  send_settle, after_settle, settle_open, settle_vault, settle_vaults,
}

-- A predicate on the calls so far.
abbrev pub On : (List Call → Type 0) → World → Type 0
On P w = P w.calls

module _ {A : Type 0} (Q : A → World → Type 0) (R : World → Type 0) where
  answered :
      (r : Result A) (w : World) → ((a : A) → r ≡ ok a → Q a w) → R w → Outcome Q (λ _. R) (r, w)
  answered (ok a) w q r = q a refl
  answered (err e) w q r = r

module _ (P : List Call → Type 0) where
  -- a read answers what the environment has for it at some instant
  pub Post-ask :
      {A : Type 0} (f : ℕ → Result A)
      → Post (On P) (ask f) (λ a w. On P w × ((n : ℕ) × (f n ≡ ok a))) (λ _. On P)
  unfolding ask
  Post-ask f = record {
    at = λ w h.
        answered (λ a v. On P v × ((n : ℕ) × (f n ≡ ok a))) (On P) (f w.tick) (next_tick w)
          (λ a e. (h, (w.tick, e))) h;
  }

  pub Post-asked : {A : Type 0} (f : ℕ → Result A) → Post (On P) (ask f) (λ _. On P) (λ _. On P)
  Post-asked f = Post-weaken (Post-ask f) (λ w h. h) (λ a w h. h.0) (λ e w h. h)

  sent-Outcome :
      (Q : List Call → Type 0) (r : Result Text) (c : Call) (w : World)
      → Q (c ∷ w.calls)
      → Outcome (λ _. On Q) (λ _. On Q) (sent r c w)
  sent-Outcome Q (ok s) c w q = q
  sent-Outcome Q (err e) c w q = q

  pub Post-send :
      (Q : List Call → Type 0) (f : ℕ → Result Text) (c : Call)
      → ((cs : List Call) → P cs → Q (c ∷ cs))
      → Post (On P) (send f c) (λ _. On Q) (λ _. On Q)
  unfolding send
  Post-send Q f c step = record {
    at = λ w h. sent-Outcome Q (f w.tick) c (next_tick w) (step w.calls h);
  }

  wrote-Outcome :
      (o : Option Exn) (found : Bool) (c : Write) (w : World)
      → On P w
      → Outcome (λ _. On P) (λ _. On P) (wrote o found c w)
  wrote-Outcome (some e) found c w h = h
  wrote-Outcome none true c w h = h
  wrote-Outcome none false c w h = h

  pub Post-db_update :
      (env : Env) (k : Vault) (c : Write) → Post (On P) (db_update env k c) (λ _. On P) (λ _. On P)
  unfolding db_update
  Post-db_update env k c = record {
    at = λ w h. wrote-Outcome (env.database w.tick) (env.has_row w.tick k) c (next_tick w) h;
  }

-- a call that redeems nothing
abbrev pub is_other : Call → Bool
is_other (redeemed p m) = false
is_other _ = true

module _ (env : Env) (P : List Call → Type 0)
    (others : (c : Call) (cs : List Call) → is_other c ≡ true → P cs → P (c ∷ cs)) where
  abbrev Keeps : {A : Type 0} → Action A → Type 0
  Keeps m = Post (On P) m (λ _. On P) (λ _. On P)

  Keeps-only :
      {A : Type 0} (named : Exn → Bool) (handler : Action A) (e : Exn)
      → Keeps handler
      → Keeps (only env named handler e)
  Keeps-only named handler e h = Post-if (named e) _ _ (λ _. h) (λ _. Post-raise e (λ w p. p))

  Keeps-price_or_finalize :
      (asset : Text) (info : OtokenInfo) (price : ℕ)
      → Keeps (price_or_finalize env asset info price)
  unfolding finalize_oracle_price
  Keeps-price_or_finalize asset info price =
      Post-if (price == 0) _ _
        (λ _.
          Post-try_except {E = λ _. On P}
            (Post-bind (Post-asked P _) (λ pyth. Post-bind (Post-asked P _) (λ update.
              Post-bind
                (Post-send P P _ (oracle_price_set info.underlying info.expiry pyth)
                  (λ cs h. others _ cs refl h))
                (λ _. Post-asked P _))))
            (λ e. Keeps-only env.is_finalize_error _ e (Post-asked P _)))
        (λ _. Post-pure price (λ w h. h))

  Keeps-set_if_final : (otoken : Text) (price : ℕ) → Keeps (set_if_final env otoken price)
  unfolding set_controller_price
  Keeps-set_if_final otoken price =
      Post-if (price == 0) _ _ (λ _. Post-pure tt (λ w h. h))
        (λ _.
          Post-try_except {E = λ _. On P}
            (Post-bind {I = λ _. On P}
              (Post-send P P _ (controller_price_set otoken) (λ cs h. others _ cs refl h))
              (λ _. Post-pure tt (λ w h. h)))
            (λ e. Keeps-only env.is_send_error _ e (Post-pure tt (λ w h. h))))

  Keeps-finalize :
      (p : Position) (asset : Text) (info : Option OtokenInfo) → Keeps (finalize env p asset info)
  Keeps-finalize p asset none = Post-pure tt (λ w h. h)
  Keeps-finalize p asset (some info) = Post-bind (Post-asked P _) (λ oracle.
      Post-bind (Keeps-price_or_finalize asset info oracle)
        (λ price. Keeps-set_if_final p.otoken_address price))

  Keeps-finalize_asset : (p : Position) (asset : Option Text) → Keeps (finalize_asset env p asset)
  Keeps-finalize_asset p none = Post-pure tt (λ w h. h)
  Keeps-finalize_asset p (some []) = Post-pure tt (λ w h. h)
  Keeps-finalize_asset p (some (c ∷ s)) =
      Post-if (any (λ a. text_eq a (c ∷ s)) env.known_assets) _ _
        (λ _. Post-bind (Post-asked P _) (λ info. Keeps-finalize p (c ∷ s) info))
        (λ _. Post-pure tt (λ w h. h))

  Keeps-copy_price : (p : Position) (info : Option OtokenInfo) → Keeps (copy_price env p info)
  Keeps-copy_price p none = Post-pure tt (λ w h. h)
  Keeps-copy_price p (some info) =
      Post-bind (Post-asked P _) (λ price. Keeps-set_if_final p.otoken_address price)

  pub Keeps-ensure_expiry_prices_set :
      (ps : List Position) → Post (On P) (ensure_expiry_prices_set env ps) (λ _. On P) (λ _. On P)
  unfolding ensure_expiry_prices_set ensure_expiry_price retry_controller_price
  Keeps-ensure_expiry_prices_set ps =
      Post-bind
        (Post-for_each (first_of_each [] ps) (ensure_expiry_price env) (λ p.
          Post-bind (Post-asked P _) (λ existing.
            Post-if (existing == 0) _ _ (λ _. Keeps-finalize_asset p p.asset)
              (λ _. Post-pure tt (λ w h. h)))))
        (λ _. Post-for_each (first_of_each [] ps) (retry_controller_price env) (λ p.
          Post-bind (Post-asked P _) (λ existing.
            Post-if (existing == 0) _ _
              (λ _. Post-bind (Post-asked P _) (λ info. Keeps-copy_price p info))
              (λ _. Post-pure tt (λ w h. h)))))

  Keeps-after_settle : (p : Position) (o : Option Text) → Keeps (after_settle env p o)
  Keeps-after_settle p none = Post-pure false (λ w h. h)
  Keeps-after_settle p (some signature) =
      Post-bind {I = λ _. On P}
        (Post-try_except {E = λ _. On P} (Post-db_update P env _ _) (λ e. Post-pure tt (λ w h. h)))
        (λ _. Post-pure true (λ w h. h))

  Keeps-settle_open : (p : Position) (o : Option VaultData) → Keeps (settle_open env p o)
  unfolding send_settle
  Keeps-settle_open p none = Post-pure false (λ w h. h)
  Keeps-settle_open p (some vault) =
      Post-bind {I = λ _. On P}
        (Post-try_except {E = λ _. On P}
          (Post-bind (Post-asked P _) (λ _. Post-bind (Post-asked P _) (λ price.
            Post-if (price == 0) _ _ (λ _. Post-pure none (λ w h. h))
              (λ _.
                Post-bind {I = λ _. On P}
                  (Post-send P P _ (vault_settled (vault_of p)) (λ cs h. others _ cs refl h))
                  (λ signature. Post-pure (some signature) (λ w h. h))))))
          (λ e. Post-pure none (λ w h. h)))
        (λ o. Keeps-after_settle p o)

  Keeps-settle_vault : (p : Position) → Keeps (settle_vault env p)
  unfolding settle_vault
  Keeps-settle_vault p = Post-bind (Post-asked P _) (λ done.
      Post-if done _ _ (λ _. Post-bind (Post-db_update P env _ _) (λ _. Post-pure true (λ w h. h)))
        (λ _. Post-bind (Post-asked P _) (λ vault. Keeps-settle_open p vault)))

  pub Keeps-settle_vaults :
      (ps : List Position) → Post (On P) (settle_vaults env ps) (λ _. On P) (λ _. On P)
  unfolding settle_vaults
  Keeps-settle_vaults [] = Post-pure [] (λ w h. h)
  Keeps-settle_vaults (p ∷ ps) =
      Post-bind (Keeps-settle_vault p)
        (λ done. Post-bind (Keeps-settle_vaults ps) (λ rest. Post-pure _ (λ w h. h)))
