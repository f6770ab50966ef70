-- ===== src/Settler/Safety.antt =====
-- A whole settlement cycle of src/bots/expiry_settler.py, and the vaults it delivers to.
use options_protocol_backend.Prelude.{
  ◌+◌, ℕ, Bool, true, false, ◌≡◌, inl, inr, Option, none, some, List, [], ◌∷◌, ◌++◌, map, filter,
  All, All-map, Bool-cases, if◌then◌else◌,
}
use options_protocol_backend.Prelude.Text.{Text}
use options_protocol_backend.Exec.{for_each}
use options_protocol_backend.Exec.Post.{
  Post, Post-pure, Post-bind, Post-try_except, Post-weaken, Post-for_each, Outcome-always,
}
use options_protocol_backend.Settler.{Position}
use options_protocol_backend.Settler.Moneyness.{
  Key, Cache, find_price, cache_key, identify_itm_positions,
}
use options_protocol_backend.Settler.Partition.{
  in_the_money, choose_itm, itm_at, identify_itm_positions-Sorted,
}
use options_protocol_backend.Settler.State.{
  vault_of, Call, price_set, delivered, redeem_raised, World, Env, read_chainlink_price,
  read_expiry_price, send_expiry_price,
}
use options_protocol_backend.Settler.Delivery.{Limits, deliver_position}
use options_protocol_backend.Settler.Batches.{Split, Progress, batches}
use options_protocol_backend.Settler.Cycle.{
  has_key, add_new, distinct, set_unless_final, ensure_price, ensure_asset,
  ensure_expiry_prices_set, final_price, classify, is_otm, mark_otm, deliver_settled, finish,
  settle_open, settle_split, settle_once,
}
use options_protocol_backend.Settler.Steps.{
  On, answer-Outcome, Post-try_update, Post-deliver_position,
}
use options_protocol_backend.Settler.Confirmed.{
  listed_self, Confirmed, DeliversSettled, AllConfirmed, AllConfirmed-later, Good, Known, Kept,
  Post-reconcile_settled_on_chain, Post-settle_batches,
}

add_new-All :
    (F : Position → Type 0) (seed ps : List Position)
    → All F seed
    → All F ps
    → All F (add_new seed ps)
unfolding add_new
add_new-All F seed [] h g = h
add_new-All F seed (p ∷ ps) h (here, g) =
    add_new-All F (if has_key (vault_of p) (map vault_of seed) then seed else seed ++ p ∷ []) ps
      (grown (has_key (vault_of p) (map vault_of seed))) g
  where
    append_one : (xs : List Position) → All F xs → All F (xs ++ p ∷ [])
    append_one [] k = (here, tt)
    append_one (x ∷ xs) (k, ks) = (k, append_one xs ks)

    grown : (b : Bool) → All F (if b then seed else seed ++ p ∷ [])
    grown true = h
    grown false = append_one seed h

module _ (F : Position → Type 0) where
  choose_itm-All :
      (p : Position) (o : Option (Option ℕ)) (rest : List (Position × ℕ))
      → F p
      → All (λ x. F x.0) rest
      → All (λ x. F x.0) (choose_itm p o rest)
  choose_itm-All p none rest h g = g
  choose_itm-All p (some none) rest h g = g
  choose_itm-All p (some (some price)) rest h g =
      elim (Bool-cases (in_the_money p.is_put p.strike_price price)) [
        | inl itm ↦ rw itm (h, g)
        | inr otm ↦ rw otm g
      ]

  itm_at-All : (c : Cache) (ps : List Position) → All F ps → All (λ x. F x.0) (itm_at c ps)
  itm_at-All c [] h = tt
  itm_at-All c (p ∷ ps) (h, hs) =
      choose_itm-All p (find_price (cache_key p) c) (itm_at c ps) h (itm_at-All c ps hs)

  identified-All :
      (oracle : ℕ → Key → Option ℕ) (ps : List Position)
      → All F ps
      → All (λ x. F x.0) (identify_itm_positions oracle ps).itm
  identified-All oracle ps h = rw (identify_itm_positions-Sorted oracle ps).0 (itm_at-All _ ps h)

module _ (limits : Limits) (env : Env) where
  module _ (P : List Call → Type 0)
      (keep : (k : Key) (price : ℕ) (cs : List Call) → P cs → P (price_set k price ∷ cs)) where
    Post-read_expiry_price :
        (k : Key) → Post (On P) (read_expiry_price env k) (λ _. On P) (λ _. On P)
    unfolding read_expiry_price
    Post-read_expiry_price k = record {
      at = λ w h.
          answer-Outcome (λ _. On P) (λ _. On P) w (env.expiry_price w.tick k) (λ v. v) (λ x e. h)
            (λ e. h);
    }

    Post-set_unless_final :
        (k : Key) (price : ℕ) (current : ℕ × Bool)
        → Post (On P) (set_unless_final limits env k price current) (λ _. On P) (λ _. On P)
    unfolding send_expiry_price
    Post-set_unless_final k price (current, true) = Post-pure tt (λ w h. h)
    Post-set_unless_final k price (current, false) =
        Post-bind {I = λ _. On P}
          (record {
            at = λ w h.
                answer-Outcome (λ _. On P) (λ _. On P) w (env.set_expiry_price w.tick k price) _
                  (λ x e. keep k price w.calls h) (λ e. h);
          })
          (λ _. Post-pure tt (λ w h. h))

    Post-ensure_price :
        (u : Text) (price expiry : ℕ)
        → Post (On P) (ensure_price limits env u price expiry) (λ _. On P) (λ _. On P)
    unfolding ensure_price
    Post-ensure_price u price expiry =
        Post-try_except {E = λ _. On P}
          (Post-bind (Post-read_expiry_price (u, expiry))
            (λ current. Post-set_unless_final (u, expiry) price current))
          (λ e. Post-pure tt (λ w h. h))

    Post-ensure_asset :
        (expiries : List ℕ) (u : Text)
        → Post (On P) (ensure_asset limits env expiries u) (λ _. On P) (λ _. On P)
    unfolding ensure_asset read_chainlink_price
    Post-ensure_asset expiries u =
        Post-try_except {E = λ _. On P}
          (Post-bind {I = λ _. On P}
            (record {
              at = λ w h.
                  answer-Outcome (λ _. On P) (λ _. On P) w (env.chainlink_price w.tick u) (λ v. v)
                    (λ x e. h) (λ e. h);
            })
            (λ price. Post-for_each expiries _ (λ e. Post-ensure_price u price e)))
          (λ e. Post-pure tt (λ w h. h))

    Post-ensure_expiry_prices_set :
        (expiries : List ℕ)
        → Post (On P) (ensure_expiry_prices_set limits env expiries) (λ _. On P) (λ _. On P)
    unfolding ensure_expiry_prices_set
    Post-ensure_expiry_prices_set [] = Post-pure tt (λ w h. h)
    Post-ensure_expiry_prices_set (e ∷ es) =
        Post-for_each limits.base_assets _ (λ u. Post-ensure_asset (e ∷ es) u)

  module _ (recovery : List Position) where
    abbrev Safe : List Call → Type 0
    Safe = DeliversSettled env recovery

    abbrev Ready : List (Position × ℕ) → List Call → Type 0
    Ready xs cs = Safe cs × All (λ x. Confirmed env recovery (vault_of x.0) cs) xs

    Ready-later :
        (xs : List (Position × ℕ)) (c : Call) (cs : List Call)
        → All (λ x. Confirmed env recovery (vault_of x.0) cs) xs
        → All (λ x. Confirmed env recovery (vault_of x.0) (c ∷ cs)) xs
    Ready-later [] c cs h = tt
    Ready-later (x ∷ xs) c cs (h, hs) =
        ((AllConfirmed-later env recovery (x.0 ∷ []) c cs (h, tt)).0, Ready-later xs c cs hs)

    Post-deliver_all :
        (xs : List (Position × ℕ))
        → Post
            (On (Ready xs))
            (for_each xs (deliver_position limits env))
            (λ _. On Safe)
            (λ _. On Safe)
    unfolding for_each
    Post-deliver_all [] = Post-pure tt (λ w h. h.0)
    Post-deliver_all ((p, price) ∷ xs) =
        Post-bind
          (Post-weaken
            (Post-deliver_position limits env (Ready ((p, price) ∷ xs)) (Ready xs) p
              (λ s cs positive h.
                ((h.1.0, positive, h.0), Ready-later xs (delivered (vault_of p) s) cs h.1.1))
              (λ s cs positive h. (
                (h.1.0, positive, h.0),
                Ready-later ((p, price) ∷ xs) (redeem_raised (vault_of p) s) cs h.1,
              ))
              (λ cs h. (h.0, h.1.1)) price)
            (λ w h. h) (λ _ w h. h) (λ _ w h. h.0))
          (λ _. Post-deliver_all xs)

    Post-classify :
        (settled : List Position)
        → Post
            (On (Good env recovery settled))
            (classify limits env settled)
            (λ found. On (Ready found.itm))
            (λ _. On Safe)
    unfolding classify
    Post-classify settled = record {
      at = λ w h. (
        h.0,
        identified-All (λ p. Confirmed env recovery (vault_of p) w.calls)
            (λ n k. final_price limits env (env.expiry_price (w.tick + n) k)) settled h.1,
      );
    }

    Post-mark_otm :
        (c : Cache) (p : Position)
        → Post (On Safe) (mark_otm limits env c p) (λ _. On Safe) (λ _. On Safe)
    unfolding mark_otm
    Post-mark_otm c p = Post-try_update limits env Safe (vault_of p) _

    Post-deliver_settled :
        (settled eligible : List Position)
        → Post
            (On (Good env recovery settled))
            (deliver_settled limits env settled eligible)
            (λ _. On Safe)
            (λ _. On Safe)
    unfolding deliver_settled
    Post-deliver_settled settled eligible = Post-bind (Post-classify settled) (λ found.
        Post-bind (Post-deliver_all found.itm) (λ _.
          Post-bind
            (Post-for_each (filter (is_otm limits env found) settled) _
              (λ p. Post-mark_otm found.cache p))
            (λ _. Post-pure _ (λ w h. h))))

    Post-finish :
        (progress : Progress env)
        → Post
            (Kept env recovery progress)
            (finish limits env progress)
            (λ _. On Safe)
            (λ _. On Safe)
    Post-finish ([], rest) = Post-pure ([], []) (λ w h. h.0)
    Post-finish (p ∷ settled, (eligible, failed)) = Post-deliver_settled (p ∷ settled) eligible

    Post-settle_open :
        (open_ seed : List Position)
        → Post
            (On (Good env recovery seed))
            (settle_open limits env open_ seed)
            (λ _. On Safe)
            (λ _. On Safe)
    Post-settle_open open_ seed =
        Post-bind
          (Post-weaken
            (Post-ensure_expiry_prices_set (Good env recovery seed)
              (λ k price cs h.
                (h.0, AllConfirmed-later env recovery seed (price_set k price) cs h.1))
              (distinct (map (λ p. p.expiry) (open_ ++ seed))))
            (λ w h. h) (λ _ w h. h) (λ _ w h. h.0))
          (λ _.
            Post-bind (Post-settle_batches env recovery (batches open_) (seed, ([], false)))
              (λ progress. Post-finish progress))

    seed_confirmed :
        (settled : List Position) (cs : List Call)
        → All (Known env recovery) settled
        → AllConfirmed env recovery (add_new settled recovery) cs
    seed_confirmed settled cs known =
        add_new-All (λ p. Confirmed env recovery (vault_of p) cs) settled recovery
          (All-map (Known env recovery) _ (λ p h. inr (inl h)) settled known)
          (All-map (λ p. has_key (vault_of p) (map vault_of recovery) ≡ true) _ (λ p h. inr (inr h))
            recovery (listed_self recovery))

    Post-settle_split :
        (split : Split)
        → Post
            (λ w. On Safe w × All (Known env recovery) split.1)
            (settle_split limits env recovery split)
            (λ _. On Safe)
            (λ _. On Safe)
    Post-settle_split (open_, settled) =
        Post-weaken (Post-settle_open open_ (add_new settled recovery))
          (λ w h. (h.0, seed_confirmed settled w.calls h.1)) (λ _ w h. h) (λ _ w h. h)

    -- Whatever the chain, the oracle and the database answer, a cycle that starts with no calls
    -- sends redemptions, answered or raised, only for vaults that are settled on the chain: a batch
    -- with the vault went through before, or the chain answered that it is settled, or the database
    -- has it as settled; and only at a positive slippage parameter.
    pub settle_once-DeliversSettled :
        (positions : List Position) (w : World)
        → w.calls ≡ []
        → DeliversSettled env recovery (settle_once limits env positions recovery w).1.calls
    unfolding settle_once
    settle_once-DeliversSettled positions w fresh =
        Outcome-always (On Safe) (settle_once limits env positions recovery w) (
          Post.at
            (Post-bind (Post-reconcile_settled_on_chain env recovery Safe positions)
              (λ split. Post-settle_split split))
            w (rw fresh tt))
