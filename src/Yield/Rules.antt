-- ===== src/Yield/Rules.antt =====
-- src/bots/yield_airdrop.py: what the harvest and a transfer do to the sums by asset.
use options_protocol_backend.Prelude.{
  ℕ, ◌+◌, ◌*◌, ◌≤◌, true, ◌≡◌, refl, Option, none, some, List, ◌∷◌, ◌==◌, arith,
}
use options_protocol_backend.Prelude.Text.{Text, truthy}
use options_protocol_backend.Exec.{Exn, Result, ok, err, pure}
use options_protocol_backend.Exec.Post.{Post, Outcome, Post-pure, Post-if, Post-bind}
use options_protocol_backend.Yield.Tables.{
  Distribution, AllocationRow, World, Env, next_tick, ask, answer, on_database, amount_or,
  has_distribution,
}
use options_protocol_backend.Yield.Airdrop.{harvest_now, harvest, send}
use options_protocol_backend.Yield.Shares.{whole, whole_and_part}
use options_protocol_backend.Yield.Owed.{only, paid, taken, Backed, Fresh}

-- Every asset's transfers and these amounts, in parts of 2 ^ 50 for one unit, are covered by its
-- harvests, of one part more for each unit.
abbrev pub Reserves : (Text → ℕ) → World → Type 0
Reserves extra w =
    Backed w.distributions w.allocations
    × ((a : Text) → paid a w.transfers * whole + extra a ≤ taken a w.harvests * whole_and_part)

-- Every row belongs to a distribution, and no asset was paid out by more than one part in 2 ^ 50
-- beyond its harvests.
abbrev pub Conserved : World → Type 0
Conserved w =
    Backed w.distributions w.allocations
    × ((a : Text) → paid a w.transfers * whole ≤ taken a w.harvests * whole_and_part)

-- and the distribution is there, with no rows
abbrev pub Opened : Text → (Text → ℕ) → World → Type 0
Opened id extra w =
    Reserves extra w × (Fresh id w.allocations × (has_distribution id w.distributions ≡ true))

pub Reserves-Conserved : (extra : Text → ℕ) (w : World) → Reserves extra w → Conserved w
Reserves-Conserved extra w h = (h.0, (λ a. omega (arith, h.1 a)))

pub Conserved-Reserves :
    (extra : Text → ℕ) (w : World) → ((a : Text) → extra a ≡ 0) → Conserved w → Reserves extra w
Conserved-Reserves extra w z h = (h.0, (λ a. omega (arith, h.1 a, z a)))

pub on_database-Outcome :
    {A : Type 0} (Q : A → World → Type 0) (R : World → Type 0) (o : Option Exn) (q : World → A)
    (f : World → World) (w : World)
    → Q (q w) (f (next_tick w))
    → R (next_tick w)
    → Outcome Q (λ _. R) (on_database o q f w)
on_database-Outcome Q R none q f w h r = h
on_database-Outcome Q R (some e) q f w h r = r

pub asked :
    {A : Type 0} (R : World → Type 0) (x : Result A) (w : World)
    → R w
    → Outcome (λ _. R) (λ _. R) (x, w)
asked R (ok a) w h = h
asked R (err e) w h = h

-- what a harvest leaves to be paid out
abbrev pub harvested : Text → Option (Text × ℕ) → Text → ℕ
harvested asset none a = 0
harvested asset (some (tx, n)) a = only asset n a * whole_and_part

module _ (env : Env) where
  Post-ask :
      {A : Type 0} (f : ℕ → Result A) → Post Conserved (ask f) (λ _. Conserved) (λ _. Conserved)
  Post-ask f = record { at = λ w h. asked Conserved (f w.tick) (next_tick w) h }

  read-Outcome :
      (asset : Text) (accrued : ℕ) (r : Result (Option ℕ)) (w : World)
      → Conserved w
      → Outcome
          (λ o. Reserves (λ a. only asset (amount_or accrued o) a * whole_and_part))
          (λ _. Conserved)
          (answer r (λ o v. record v { harvests = (asset, amount_or accrued o) ∷ v.harvests }) w)
  unfolding taken
  read-Outcome asset accrued (ok o) w h = (h.0, (λ a. omega (arith, h.1 a)))
  read-Outcome asset accrued (err e) w h = h

  Post-harvest_now :
      (asset : Text) (accrued : ℕ)
      → Post Conserved
          (harvest_now env asset accrued)
          (λ o. Reserves (harvested asset o))
          (λ _. Conserved)
  Post-harvest_now asset accrued =
      Post-bind {I = λ _. Conserved} (Post-ask (λ n. env.harvest_yield n asset)) (λ tx.
        Post-bind {I = λ o. Reserves (λ a. only asset (amount_or accrued o) a * whole_and_part)}
          (record { at = λ w h. read-Outcome asset accrued (env.harvested_in w.tick tx) w h })
          (λ o. Post-pure _ (λ w h. h)))

  nothing :
      (asset : Text)
      → Post Conserved (pure none) (λ o. Reserves (harvested asset o)) (λ _. Conserved)
  nothing asset = Post-pure none (λ w h. Conserved-Reserves (λ a. 0) w (λ a. refl) h)

  pub Post-harvest :
      (asset : Text)
      → Post Conserved (harvest env asset) (λ o. Reserves (harvested asset o)) (λ _. Conserved)
  unfolding harvest
  Post-harvest asset =
      Post-if (truthy (env.asset_address asset)) _ _
        (λ e. Post-bind {I = λ _. Conserved} (Post-ask (λ n. env.accrued_yield n asset)) (λ accrued.
          Post-if (accrued == 0) _ _ (λ z. nothing asset) (λ z. Post-harvest_now asset accrued)))
        (λ e. nothing asset)

  -- what is sent was set aside
  send-Outcome :
      (Q : World → Type 0) (r : Result Text) (w : World) → Q w → Outcome (λ _. Q) (λ _. Q) (r, w)
  send-Outcome Q (ok tx) w h = h
  send-Outcome Q (err e) w h = h

  pub Post-send :
      (Z : List Distribution → List AllocationRow → Type 0) (extra : Text → ℕ)
      (asset recipient : Text) (amount : ℕ)
      → Post
          (λ w.
            Reserves (λ a. only asset amount a * whole + extra a) w
            × Z w.distributions w.allocations)
          (send env asset recipient amount)
          (λ _ v. Reserves extra v × Z v.distributions v.allocations)
          (λ _ v. Reserves extra v × Z v.distributions v.allocations)
  unfolding send paid
  Post-send Z extra asset recipient amount = record {
    at = λ w ((b, h), z).
        send-Outcome (λ v. Reserves extra v × Z v.distributions v.allocations)
          (env.transfer w.tick asset recipient amount)
          (record (next_tick w) {
            transfers =
                record { asset = asset; recipient = recipient; amount = amount } ∷ w.transfers;
          })
          ((b, (λ a. omega (arith, h a))), z);
  }
