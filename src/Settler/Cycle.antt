-- ===== src/Settler/Cycle.antt =====
-- src/bots/expiry_settler.py: `_ensure_expiry_prices_set` and `settle_once`, from the positions that
-- its two queries return to those that it hands to the mailer. The wait before phase 2 is left out.
use options_protocol_backend.Prelude.{
  ℕ, ◌+◌, Bool, true, false, ◌||◌, not, Option, none, some, List, [], ◌∷◌, ◌++◌, map, any, filter,
  ◌==◌, if◌then◌else◌,
}
use options_protocol_backend.Prelude.Text.{Text}
use options_protocol_backend.Exec.{Result, ok, pure, try_except, for_each, ◌>>=◌, ◌>>◌}
use options_protocol_backend.Settler.{Position}
use options_protocol_backend.Settler.Moneyness.{
  Key, key_eq, Cache, find_price, cache_key, Identified, identify_itm_positions,
}
use options_protocol_backend.Settler.State.{
  Vault, vault_of, otm, Env, Action, read_chainlink_price, read_expiry_price, send_expiry_price,
}
use options_protocol_backend.Settler.Delivery.{Limits, try_update, deliver_position}
use options_protocol_backend.Settler.Batches.{
  Split, reconcile_settled_on_chain, batches, Progress, settle_batches,
}

abbrev pub has_key : Vault → List Vault → Bool
has_key k = any (λ k'. key_eq k' k)

-- The recovered positions that are not among the reconciled ones, each vault once.
unfoldable pub add_new : List Position → List Position → List Position
add_new seed [] = seed
add_new seed (p ∷ ps) =
    add_new (if has_key (vault_of p) (map vault_of seed) then seed else seed ++ p ∷ []) ps

unfoldable pub distinct : List ℕ → List ℕ
distinct [] = []
distinct (x ∷ xs) = let rest = distinct xs in if any (λ y. y == x) rest then rest else x ∷ rest

module _ (limits : Limits) (env : Env) where
  abbrev pub set_unless_final : Key → ℕ → ℕ × Bool → Action Unit
  set_unless_final k price (current, true) = pure tt
  set_unless_final k price (current, false) = send_expiry_price env k price >> pure tt

  -- a price that cannot be read or set is only logged
  unfoldable pub ensure_price : Text → ℕ → ℕ → Action Unit
  ensure_price underlying price expiry =
      try_except
        (do
          current ← read_expiry_price env (underlying, expiry)
          set_unless_final (underlying, expiry) price current)
        (λ e. pure tt)

  unfoldable pub ensure_asset : List ℕ → Text → Action Unit
  unfolding ensure_price
  ensure_asset expiries underlying =
      try_except
        (do
          price ← read_chainlink_price env underlying
          for_each expiries (ensure_price underlying price))
        (λ e. pure tt)

  unfoldable pub ensure_expiry_prices_set : List ℕ → Action Unit
  unfolding ensure_asset
  ensure_expiry_prices_set [] = pure tt
  ensure_expiry_prices_set (e ∷ es) = for_each limits.base_assets (ensure_asset (e ∷ es))

  abbrev pub final_price : Result (ℕ × Bool) → Option ℕ
  final_price (ok (price, true)) = some price
  final_price _ = none

  -- the oracle as the classification reads it
  unfoldable pub classify : List Position → Action Identified
  unfolding identify_itm_positions
  classify settled w = (
    ok (identify_itm_positions (λ n k. final_price (env.expiry_price (w.tick + n) k)) settled),
    w,
  )

  abbrev pub is_otm : Identified → Position → Bool
  is_otm found p = not (
      has_key (vault_of p) (map (λ x. vault_of x.0) found.itm)
      || has_key (vault_of p) found.skipped)

  abbrev pub cached : Option (Option ℕ) → Option ℕ
  cached none = none
  cached (some price) = price

  unfoldable pub mark_otm : Cache → Position → Action Unit
  mark_otm cache p =
      try_update limits env (vault_of p)
        (otm (vault_of p) (cached (find_price (cache_key p) cache)))

  -- from the settled positions to the end
  unfoldable pub deliver_settled :
      List Position → List Position → Action (List Position × List Position)
  unfolding classify mark_otm
  deliver_settled settled eligible = do
    found ← classify settled
    for_each found.itm (deliver_position limits env)
    for_each (filter (is_otm found) settled) (mark_otm found.cache)
    pure (eligible, map (λ x. x.0) found.itm)

  abbrev pub finish : Progress env → Action (List Position × List Position)
  finish ([], rest) = pure ([], [])
  finish (p ∷ settled, (eligible, failed)) = deliver_settled (p ∷ settled) eligible

  abbrev pub settle_open : List Position → List Position → Action (List Position × List Position)
  settle_open open_ seed = do
    ensure_expiry_prices_set (distinct (map (λ p. p.expiry) (open_ ++ seed)))
    progress ← settle_batches env (batches open_) (seed, ([], false))
    finish progress

  abbrev pub settle_split : List Position → Split → Action (List Position × List Position)
  settle_split recovery (open_, settled) = settle_open open_ (add_new settled recovery)

  unfoldable pub settle_once :
      List Position → List Position → Action (List Position × List Position)
  unfolding ensure_expiry_prices_set deliver_settled
  settle_once positions recovery = do
    split ← reconcile_settled_on_chain env positions
    settle_split recovery split
