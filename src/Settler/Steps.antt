-- ===== src/Settler/Steps.antt =====
-- Rules for the steps of a settlement cycle of src/bots/expiry_settler.py: what they do to the calls.
use options_protocol_backend.Prelude.{
  ℕ, zero, suc, ◌+◌, ◌≤◌, arith, Bool, true, false, ◌≡◌, refl, Option, none, some, List, [], ◌∷◌,
}
use options_protocol_backend.Prelude.Text.{Text}
use options_protocol_backend.Prelude.Int.{ℤ, pos, leb_ℤ}
use options_protocol_backend.Exec.{Exn, Result, ok, err}
use options_protocol_backend.Exec.Post.{
  Post, Outcome, Post-pure, Post-raise, Post-if, Post-bind, Post-try_except, Post-weaken,
}
use options_protocol_backend.Settler.{Position}
use options_protocol_backend.Settler.State.{
  Vault, vault_of, Call, delivered, redeem_raised, batch_settled, Write, World, Env, answer,
  attempt, update, update_row, read_vault_settled, send_batch, send_redeem, next_tick,
}
use options_protocol_backend.Settler.Delivery.{
  Limits, slippage_param, require_slippage, redeem, redeem_once, redeem_attempts, retries_from,
  physical_redeem_with_retry, try_update, mark_delivered, mark_failed, after_redeem, deliver,
  deliver_to, deliver_position,
}

-- A predicate on the calls so far.
abbrev pub On : (List Call → Type 0) → World → Type 0
On P w = P w.calls

module _ {A : Type 0} (Q : A → World → Type 0) (R : Exn → World → Type 0) (w : World) where
  pub answer-Outcome :
      (a : Result A) (f : World → World)
      → ((x : A) → a ≡ ok x → Q x (f (next_tick w)))
      → ((e : Exn) → R e (next_tick w))
      → Outcome Q R (answer a f w)
  answer-Outcome (ok x) f h r = h x refl
  answer-Outcome (err e) f h r = r e

module _ (env : Env) (P : List Call → Type 0) where
  update-Outcome :
      (o : Option Exn) (b : Bool) (c : Write) (w : World)
      → On P w
      → Outcome (λ _. On P) (λ _. On P) (update o b c w)
  update-Outcome none true c w h = h
  update-Outcome none false c w h = h
  update-Outcome (some e) b c w h = h

  pub Post-update_row :
      (k : Vault) (c : Write) → Post (On P) (update_row env k c) (λ _. On P) (λ _. On P)
  unfolding update_row
  Post-update_row k c = record {
    at = λ w h. update-Outcome (env.database w.tick) (env.has_row w.tick k) c w h;
  }

  -- What the chain says of a vault is an answer of the environment.
  pub Post-read_vault_settled :
      (k : Vault)
      → Post
          (On P)
          (read_vault_settled env k)
          (λ b w. On P w × ((n : ℕ) × (env.vault_settled n k ≡ ok b)))
          (λ _. On P)
  unfolding read_vault_settled
  Post-read_vault_settled k = record {
    at = λ w h.
        answer-Outcome (λ b w. On P w × ((n : ℕ) × (env.vault_settled n k ≡ ok b))) (λ _. On P) w
          (env.vault_settled w.tick k) (λ v. v) (λ b e. (h, (w.tick, e))) (λ _. h);
  }

  pub Post-send_batch :
      (Q : List Call → Type 0) (ks : List Vault)
      → ((cs : List Call) → P cs → Q (batch_settled ks ∷ cs))
      → Post (On P) (send_batch env ks) (λ _. On Q) (λ _. On P)
  unfolding send_batch
  Post-send_batch Q ks f = record {
    at = λ w h.
        answer-Outcome (λ _. On Q) (λ _. On P) w (env.batch_settle_vaults w.tick ks) _
          (λ tx e. f w.calls h) (λ _. h);
  }

-- Of one delivery: `P n` before the next attempt, after `n` of them raised, and `Q` after one returned;
-- there are at most `T` attempts.
module _ (limits : Limits) (env : Env) (P : ℕ → List Call → Type 0) (Q : List Call → Type 0)
    (p : Position) (T : ℕ)
    (f : (n : ℕ) (s : ℤ) (cs : List Call)
      → suc n ≤ T
      → leb_ℤ s (pos 0) ≡ false
      → P n cs
      → Q (delivered (vault_of p) s ∷ cs))
    (r : (n : ℕ) (s : ℤ) (cs : List Call)
      → leb_ℤ s (pos 0) ≡ false
      → P n cs
      → P (suc n) (redeem_raised (vault_of p) s ∷ cs))
    (skip : (n : ℕ) (cs : List Call) → P n cs → P (suc n) cs) where
  abbrev pub Spent : World → Type 0
  Spent w = (n : ℕ) × (n ≤ T) × P n w.calls

  attempt-Outcome :
      (a : Result Text) (n : ℕ) (s : ℤ) (w : World)
      → suc n ≤ T
      → leb_ℤ s (pos 0) ≡ false
      → On (P n) w
      → Outcome
          (λ _. On Q)
          (λ _. On (P (suc n)))
          (attempt a (delivered (vault_of p) s) (redeem_raised (vault_of p) s) w)
  attempt-Outcome (ok tx) n s w b e h = f n s w.calls b e h
  attempt-Outcome (err x) n s w b e h = r n s w.calls e h

  slippage-Outcome :
      (x : Result (ℤ × ℕ)) (n : ℕ) (w : World)
      → On (P n) w
      → Outcome (λ _. On (P n)) (λ _. On (P (suc n))) (x, next_tick w)
  slippage-Outcome (ok a) n w h = h
  slippage-Outcome (err e) n w h = skip n w.calls h

  Post-slippage_param :
      (n price : ℕ)
      → Post (On (P n)) (slippage_param limits env p price) (λ _. On (P n)) (λ _. On (P (suc n)))
  unfolding slippage_param
  Post-slippage_param n price = record { at = λ w h. slippage-Outcome _ n w h }

  Post-require_slippage :
      (n : ℕ) (x : ℤ × ℕ)
      → Post
          (On (P n))
          (require_slippage limits env x)
          (λ y w. On (P n) w × (leb_ℤ y.0 (pos 0) ≡ false))
          (λ _. On (P (suc n)))
  Post-require_slippage n (s, contra) =
      Post-if (leb_ℤ s (pos 0)) _ _ (λ _. Post-raise _ (λ w h. skip n w.calls h))
        (λ e. Post-pure (s, contra) (λ w h. (h, e)))

  Post-redeem :
      (n : ℕ) (x : ℤ × ℕ)
      → suc n ≤ T
      → Post
          (λ w. On (P n) w × (leb_ℤ x.0 (pos 0) ≡ false))
          (redeem limits env p x)
          (λ _. On Q)
          (λ _. On (P (suc n)))
  unfolding send_redeem
  Post-redeem n (s, contra) b =
      Post-bind {I = λ _. On Q}
        (record { at = λ w h. attempt-Outcome (env.physical_redeem w.tick p s) n s w b h.1 h.0 })
        (λ tx. Post-pure (tx, contra) (λ w h. h))

  Post-redeem_once :
      (n price : ℕ)
      → suc n ≤ T
      → Post (On (P n)) (redeem_once limits env p price) (λ _. On Q) (λ _. On (P (suc n)))
  unfolding redeem_once
  Post-redeem_once n price b =
      Post-bind (Post-slippage_param n price)
        (λ x. Post-bind (Post-require_slippage n x) (λ y. Post-redeem n y b))

  Post-redeem_attempts :
      (m n price : ℕ)
      → suc m + n ≤ T
      → Post (On (P n)) (redeem_attempts limits env m p price) (λ _. On Q) (λ _. Spent)
  unfolding redeem_attempts
  Post-redeem_attempts zero n price b =
      let b' : suc n ≤ T = omega (arith, b) in
      Post-weaken (Post-redeem_once n price b') (λ w h. h) (λ _ w h. h) (λ _ w h. (suc n, b', h))
  Post-redeem_attempts (suc m) n price b =
      Post-try_except {E = λ _. On (P (suc n))} (Post-redeem_once n price (omega (arith, b)))
        (λ e. Post-redeem_attempts m (suc n) price (omega (arith, b)))

  Post-retries_from :
      (m price : ℕ)
      → m ≤ T
      → Post (On (P 0)) (retries_from limits env m p price) (λ _. On Q) (λ _. Spent)
  Post-retries_from zero price b = Post-raise _ (λ w h. (0, omega arith, h))
  Post-retries_from (suc m) price b = Post-redeem_attempts m 0 price (omega (arith, b))

  -- A delivery that returns is at most `T` attempts, of which the last one answered.
  pub Post-physical_redeem_with_retry :
      (price : ℕ)
      → limits.settlement_max_retries ≤ T
      → Post (On (P 0)) (physical_redeem_with_retry limits env p price) (λ _. On Q) (λ _. Spent)
  unfolding physical_redeem_with_retry
  Post-physical_redeem_with_retry price b = Post-retries_from limits.settlement_max_retries price b

module _ (limits : Limits) (env : Env) (P : List Call → Type 0) where
  pub Post-try_update :
      (k : Vault) (c : Write) → Post (On P) (try_update limits env k c) (λ _. On P) (λ _. On P)
  unfolding try_update
  Post-try_update k c =
      Post-try_except {E = λ _. On P}
        (Post-bind (Post-update_row env P k c) (λ _. Post-pure tt (λ w h. h)))
        (λ e. Post-pure tt (λ w h. h))

  Post-mark_delivered :
      (p : Position) (price : ℕ) (x : Text × ℕ)
      → Post (On P) (mark_delivered limits env p price x) (λ _. On P) (λ _. On P)
  Post-mark_delivered p price (tx, contra) = Post-try_update (vault_of p) _

  Post-mark_failed :
      (p : Position) (price : ℕ)
      → Post (On P) (mark_failed limits env p price) (λ _. On P) (λ _. On P)
  unfolding mark_failed
  Post-mark_failed p price = Post-try_update (vault_of p) _

module _ (limits : Limits) (env : Env) (P Q : List Call → Type 0) (p : Position)
    (f : (s : ℤ) (cs : List Call)
      → leb_ℤ s (pos 0) ≡ false
      → P cs
      → Q (delivered (vault_of p) s ∷ cs))
    (r : (s : ℤ) (cs : List Call)
      → leb_ℤ s (pos 0) ≡ false
      → P cs
      → P (redeem_raised (vault_of p) s ∷ cs))
    (g : (cs : List Call) → P cs → Q cs) where
  after_redeem-Outcome :
      (price : ℕ) (x : Result (Text × ℕ) × World)
      → Outcome (λ _. On Q) (λ _. On P) x
      → Outcome (λ _. On Q) (λ _. On Q) (after_redeem limits env p price x.0 x.1)
  after_redeem-Outcome price (ok receipt, w) h =
      (Post-mark_delivered limits env Q p price receipt).at w h
  after_redeem-Outcome price (err e, w) h =
      (Post-mark_failed limits env Q p price).at w (g w.calls h)

  Post-redelivered :
      (price : ℕ)
      → Post (On P) (physical_redeem_with_retry limits env p price) (λ _. On Q) (λ _. On P)
  Post-redelivered price =
      Post-weaken
        (Post-physical_redeem_with_retry limits env (λ _. P) Q p limits.settlement_max_retries
          (λ n s cs b e h. f s cs e h) (λ n s cs e h. r s cs e h) (λ n cs h. h) price (omega arith))
        (λ w h. h) (λ _ w h. h) (λ _ w h. h.2)

  Post-deliver : (price : ℕ) → Post (On P) (deliver limits env p price) (λ _. On Q) (λ _. On Q)
  unfolding deliver
  Post-deliver price = record {
    at = λ w h.
        after_redeem-Outcome price (physical_redeem_with_retry limits env p price w)
          ((Post-redelivered price).at w h);
  }

  Post-deliver_to :
      (mm : Option Text) (price : ℕ)
      → Post (On P) (deliver_to limits env mm p price) (λ _. On Q) (λ _. On Q)
  Post-deliver_to none price =
      Post-weaken (Post-mark_failed limits env Q p price) (λ w h. g w.calls h) (λ _ w h. h)
        (λ _ w h. h)
  Post-deliver_to (some []) price =
      Post-weaken (Post-mark_failed limits env Q p price) (λ w h. g w.calls h) (λ _ w h. h)
        (λ _ w h. h)
  Post-deliver_to (some (c ∷ s)) price = Post-deliver price

  -- One round of phase 2 adds redemptions of its vault to the calls, of which at most the last one answered.
  pub Post-deliver_position :
      (price : ℕ) → Post (On P) (deliver_position limits env (p, price)) (λ _. On Q) (λ _. On Q)
  unfolding deliver_position
  Post-deliver_position price = Post-deliver_to p.mm_address price
