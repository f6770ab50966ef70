-- ===== src/Settler/State.antt =====
-- src/bots/expiry_settler.py: what a settlement cycle does, as the calls that the chain answered, the
-- redemptions that raised, which it may have carried out all the same, and the writes to `order_events`, the latest first. Calls and reads are numbered by `tick`,
-- and an environment answers each of them by a result or an exception.
use options_protocol_backend.Prelude.{ℕ, ◌+◌, Bool, true, false, Option, none, some, List, ◌∷◌}
use options_protocol_backend.Prelude.Text.{Text}
use options_protocol_backend.Prelude.Int.{ℤ}
use options_protocol_backend.Exec.{Exn, Result, ok, err, Exec}
use options_protocol_backend.Settler.{Position}
use options_protocol_backend.Settler.Moneyness.{Key}

-- (user, vault id)
abbrev pub Vault : Type 0
Vault = Text × ℕ

abbrev pub vault_of : Position → Vault
vault_of p = (p.user_address, p.vault_id)

pub data Call : Type 0 where
  price_set : Key → ℕ → Call
  batch_settled : List Vault → Call
  delivered : Vault → ℤ → Call
  redeem_raised : Vault → ℤ → Call

-- The updates of a row: settled on the chain before, settled for cash, delivered, failed to deliver,
-- out of the money.
pub data Write : Type 0 where
  reconciled : Vault → Write
  cash : Vault → Text → Write
  physical : Vault → Text → Text → ℕ → ℕ → Write
  physical_failed : Vault → ℕ → Write
  otm : Vault → Option ℕ → Write

pub record World : Type 0 where
  pub calls : List Call
  pub writes : List Write
  pub tick : ℕ

pub record Env : Type 0 where
  pub vault_settled : ℕ → Vault → Result Bool
  pub batch_settle_vaults : ℕ → List Vault → Result Text
  pub physical_redeem : ℕ → Position → ℤ → Result Text
  pub quote_exact_output : ℕ → ℕ → Result ℕ
  pub chainlink_price : ℕ → Text → Result ℕ
  pub expiry_price : ℕ → Key → Result (ℕ × Bool)
  pub set_expiry_price : ℕ → Key → ℕ → Result Text
  pub database : ℕ → Option Exn
  pub has_row : ℕ → Vault → Bool

abbrev pub Action : Type 0 → Type 0
Action A = Exec World A

abbrev pub next_tick : World → World
next_tick w = record w { tick = w.tick + 1 }

-- A call that either answers, and then changes the world, or raises.
abbrev pub answer : {A : Type 0} → Result A → (World → World) → Action A
answer (ok a) f w = (ok a, f (next_tick w))
answer (err e) f w = (err e, next_tick w)

abbrev pub record_call : Call → World → World
record_call c w = record w { calls = c ∷ w.calls }

-- A call that is listed whether it answers or raises.
abbrev pub attempt : {A : Type 0} → Result A → Call → Call → Action A
attempt (ok a) c c' w = (ok a, record_call c (next_tick w))
attempt (err e) c c' w = (err e, record_call c' (next_tick w))

abbrev pub record_write : Write → World → World
record_write c w = record w { writes = c ∷ w.writes }

-- An update answers with whether it found a row, and raises with the database.
abbrev pub update : Option Exn → Bool → Write → Action Bool
update (some e) found c w = (err e, next_tick w)
update none true c w = (ok true, record_write c (next_tick w))
update none false c w = (ok false, next_tick w)

module _ (env : Env) where
  unfoldable pub update_row : Vault → Write → Action Bool
  update_row k c w = update (env.database w.tick) (env.has_row w.tick k) c w

  unfoldable pub read_vault_settled : Vault → Action Bool
  read_vault_settled k w = answer (env.vault_settled w.tick k) (λ v. v) w

  unfoldable pub send_batch : List Vault → Action Text
  send_batch ks w =
      answer (env.batch_settle_vaults w.tick ks) (λ v. record_call (batch_settled ks) v) w

  unfoldable pub send_redeem : Position → ℤ → Action Text
  send_redeem p slippage w =
      attempt (env.physical_redeem w.tick p slippage) (delivered (vault_of p) slippage)
        (redeem_raised (vault_of p) slippage) w

  unfoldable pub read_chainlink_price : Text → Action ℕ
  read_chainlink_price underlying w = answer (env.chainlink_price w.tick underlying) (λ v. v) w

  unfoldable pub read_expiry_price : Key → Action (ℕ × Bool)
  read_expiry_price k w = answer (env.expiry_price w.tick k) (λ v. v) w

  unfoldable pub send_expiry_price : Key → ℕ → Action Text
  send_expiry_price k price w =
      answer (env.set_expiry_price w.tick k price) (λ v. record_call (price_set k price) v) w
