-- ===== src/Settler/Retries.antt =====
-- The retries of a delivery, the marks of a batch and the batches themselves, in
-- src/bots/expiry_settler.py.
use mathlib.Core.Bool.{true≢false}
use options_protocol_backend.Prelude.{
  map, ◌-◌, ℕ, zero, suc, ◌≤◌, ◌≡◌, refl, sym, ap, ◌∙◌, Bool, true, false, Option, none, some, List,
  [], ◌∷◌, ◌++◌, All, length, length-take, take, drop, arith,
}
use options_protocol_backend.Prelude.Text.{Text}
use options_protocol_backend.Prelude.Int.{ℤ, pos, leb_ℤ}
use options_protocol_backend.Exec.{Exn}
use options_protocol_backend.Exec.Post.{
  Post, Outcome, Post-pure, Post-raise, Post-bind, Post-try_except, Post-weaken,
}
use options_protocol_backend.Settler.{Position}
use options_protocol_backend.Settler.State.{
  Vault, vault_of, Call, delivered, redeem_raised, Write, cash, World, Env, update, update_row,
}
use options_protocol_backend.Settler.Delivery.{Limits, physical_redeem_with_retry}
use options_protocol_backend.Settler.Batches.{
  max_batch_size, batches_of, batches, failures_with, mark_settled, mark_vaults, require_none,
  mark_batch_settled,
}
use options_protocol_backend.Settler.Steps.{Post-physical_redeem_with_retry}

-- At most `n` redemptions of the vault raised, each at a positive parameter, came before the calls.
abbrev pub Raised : Position → List Call → ℕ → List Call → Type 0
Raised p start n cs =
    (ss : List ℤ) × (length ss ≤ n)
    × All (λ s. leb_ℤ s (pos 0) ≡ false) ss
    × (cs ≡ map (λ s. redeem_raised (vault_of p) s) ss ++ start)

-- One more redemption of the vault, at a positive parameter, answered; fewer than `most` raised before.
abbrev pub DeliveredOnce : Position → List Call → ℕ → List Call → Type 0
DeliveredOnce p start most cs =
    (s : ℤ) × (leb_ℤ s (pos 0) ≡ false)
    × ((n : ℕ) × (rest : List Call) × (suc n ≤ most)
        × Raised p start n rest
        × (cs ≡ delivered (vault_of p) s ∷ rest))

module _ (limits : Limits) (env : Env) where
  -- A delivery makes at most `settlement_max_retries` redemptions, all of its vault and at a positive
  -- slippage parameter, and no other call. One that returns ends by the only redemption that
  -- answered, and the others raised; one that raises has had no redemption answered. A redemption
  -- that raised may have been carried out.
  pub physical_redeem_with_retry-DeliveredOnce :
      (p : Position) (price : ℕ) (w : World)
      → Outcome
          (λ _ v. DeliveredOnce p w.calls limits.settlement_max_retries v.calls)
          (λ _ v. Raised p w.calls limits.settlement_max_retries v.calls)
          (physical_redeem_with_retry limits env p price w)
  physical_redeem_with_retry-DeliveredOnce p price w =
      Post.at
        (Post-weaken
          (Post-physical_redeem_with_retry limits env (Raised p w.calls)
            (DeliveredOnce p w.calls limits.settlement_max_retries) p limits.settlement_max_retries
            (λ n s cs b e h. (s, e, (n, cs, b, h, refl)))
            (λ n s cs e (ss, le, h, same).
              (s ∷ ss, omega (arith, le), (e, h), ap (λ l. redeem_raised (vault_of p) s ∷ l) same))
            (λ n cs (ss, le, h, same). (ss, omega (arith, le), h, same)) price (omega arith))
          (λ v h. h) (λ _ v h. h)
          (λ _ v (n, b, (ss, le, h, same)). (ss, omega (arith, le, b), h, same)))
        w ([], omega arith, tt, refl)

-- The writes once each vault is marked, the last one first.
abbrev pub marks_after : Text → List Vault → List Write → List Write
marks_after tx [] ws = ws
marks_after tx (k ∷ ks) ws = marks_after tx ks (cash k tx ∷ ws)

module _ (env : Env) (tx : Text) where
  -- the writes are `ws`
  abbrev Wrote : List Write → World → Type 0
  Wrote ws w = w.writes ≡ ws

  module _ (C : Type 0) where
    update-Wrote :
        (o : Option Exn) (found : Bool) (k : Vault) (ws : List Write) (w : World)
        → (C → Wrote ws w)
        → Outcome
            (λ b v. C × (b ≡ true) → Wrote (cash k tx ∷ ws) v)
            (λ _ _. Unit)
            (update o found (cash k tx) w)
    update-Wrote none true k ws w h = λ t. ap (λ l. cash k tx ∷ l) (h t.0)
    update-Wrote none false k ws w h = λ t. absurd (true≢false (sym t.1))
    update-Wrote (some e) found k ws w h = tt

    Post-mark_settled :
        (k : Vault) (ws : List Write)
        → Post
            (λ w. C → Wrote ws w)
            (mark_settled env tx k)
            (λ b v. C × (b ≡ true) → Wrote (cash k tx ∷ ws) v)
            (λ _ _. Unit)
    unfolding update_row
    Post-mark_settled k ws =
        Post-try_except {E = λ _ _. Unit}
          (record {
            at = λ w h. update-Wrote (env.database w.tick) (env.has_row w.tick k) k ws w h;
          })
          (λ e. Post-pure false (λ w h t. absurd (true≢false (sym t.1))))

  -- a count of no failures
  no_failures : (b : Bool) (n : ℕ) → failures_with env b n ≡ 0 → (b ≡ true) × (n ≡ 0)
  no_failures true n h = (refl, h)
  no_failures false n h = absurd (omega (arith, h))

  Post-mark_vaults :
      (ks : List Vault) (ws : List Write) (C : Type 0)
      → Post
          (λ w. C → Wrote ws w)
          (mark_vaults env tx ks)
          (λ n v. C × (n ≡ 0) → Wrote (marks_after tx ks ws) v)
          (λ _ _. Unit)
  unfolding mark_vaults
  Post-mark_vaults [] ws C = Post-pure 0 (λ w h t. h t.0)
  Post-mark_vaults (k ∷ ks) ws C = Post-bind (Post-mark_settled C k ws) (λ b.
      Post-bind (Post-mark_vaults ks (cash k tx ∷ ws) (C × (b ≡ true))) (λ n.
        Post-pure (failures_with env b n)
          (λ w h t. let (marked, rest) = no_failures b n t.1 in h ((t.0, marked), rest))))

  Post-require_none :
      (n : ℕ) (ws : List Write)
      → Post
          (λ v. Unit {0} × (n ≡ 0) → Wrote ws v)
          (require_none env n)
          (λ _. Wrote ws)
          (λ _ _. Unit)
  Post-require_none zero ws = Post-pure tt (λ w h. h (tt, refl))
  Post-require_none (suc n) ws = Post-raise _ (λ w h. tt)

  -- Where the marking of a batch returns, every vault of it has been written as settled for cash, in
  -- their order and with the batch's transaction, and nothing else has been written.
  pub mark_batch_settled-marks :
      (ks : List Vault) (w : World)
      → Outcome
          (λ _ v. v.writes ≡ marks_after tx ks w.writes)
          (λ _ _. Unit)
          (mark_batch_settled env tx ks w)
  unfolding mark_batch_settled
  mark_batch_settled-marks ks w =
      Post.at
        (Post-bind (Post-mark_vaults ks w.writes Unit)
          (λ n. Post-require_none n (marks_after tx ks w.writes)))
        w (λ t. refl)

-- The positions of all batches.
abbrev pub joined : List (List Position) → List Position
joined [] = []
joined (b ∷ bs) = b ++ joined bs

take-append-drop : (n : ℕ) (ps : List Position) → take n ps ++ drop n ps ≡ ps
take-append-drop zero ps = refl
take-append-drop (suc n) [] = refl
take-append-drop (suc n) (p ∷ ps) = ap (λ l. p ∷ l) (take-append-drop n ps)

length-drop : (n : ℕ) (ps : List Position) → length (drop n ps) ≡ length ps - n
length-drop zero ps = omega arith
length-drop (suc n) [] = omega arith
length-drop (suc n) (p ∷ ps) = omega (arith, length-drop n ps)

-- batches of the right size, and nothing lost
abbrev pub IsBatching : List (List Position) → List Position → Type 0
IsBatching bs ps = (joined bs ≡ ps) × All (λ b. (1 ≤ length b) × (length b ≤ max_batch_size)) bs

batches_of-IsBatching :
    (rounds : ℕ) (ps : List Position) → length ps ≤ rounds → IsBatching (batches_of rounds ps) ps
unfolding batches_of
batches_of-IsBatching zero [] h = (refl, tt)
batches_of-IsBatching zero (p ∷ ps) h = absurd (omega (arith, h))
batches_of-IsBatching (suc rounds) [] h = (refl, tt)
batches_of-IsBatching (suc rounds) (p ∷ ps) h =
    let rest = drop max_batch_size (p ∷ ps) in
    let short : length rest ≤ rounds = omega (arith, h, length-drop max_batch_size (p ∷ ps)) in
    let ih = batches_of-IsBatching rounds rest short in
    let size = length-take max_batch_size (p ∷ ps) in
    (
      ap (λ l. take max_batch_size (p ∷ ps) ++ l) ih.0 ∙ take-append-drop max_batch_size (p ∷ ps),
      ((omega (arith, size), omega (arith, size)), ih.1),
    )

-- The batches of phase 1 hold every position once and in order, and none is empty or longer than 50.
pub batches-IsBatching : (ps : List Position) → IsBatching (batches ps) ps
unfolding batches
batches-IsBatching ps = batches_of-IsBatching (length ps) ps (omega arith)
