-- ===== src/Solana/State.antt =====
-- src/bots/solana_expiry_settler.py: the transactions that the bot sends, also those whose call raises,
-- and the writes to `order_events`, the latest first. Calls and reads are numbered by `tick`; an environment answers each
-- of them by a result or an exception. It also stands for the building of instructions by solders.
use options_protocol_backend.Prelude.{ℕ, ◌+◌, Bool, true, false, Option, none, some, List, ◌∷◌}
use options_protocol_backend.Prelude.Text.{Text}
use options_protocol_backend.Prelude.Int.{ℤ}
use options_protocol_backend.Exec.{Exn, Result, ok, err, Exec}

-- A `Decimal`: a coefficient and the number of digits after its point.
pub record Decimal : Type 0 where
  pub coefficient : ℤ
  pub scale : ℕ

-- A row of `order_events`. `strike_price` is `none` where `Decimal` cannot read it.
pub record Position : Type 0 where
  pub user_address : Text
  pub vault_id : ℕ
  pub otoken_address : Text
  pub amount : ℤ
  pub strike_price : Option Decimal
  pub is_put : Bool
  pub mm_address : Option Text
  pub asset : Option Text

pub record OtokenInfo : Type 0 where
  pub underlying : Text
  pub strike_asset : Text
  pub collateral_mint : Text
  pub strike_price : ℤ
  pub expiry : ℕ
  pub is_put : Bool

pub record VaultData : Type 0 where
  pub vault_pda : Text
  pub collateral_mint : Text
  pub beneficiary : Text

-- (user, vault id)
abbrev pub Vault : Type 0
Vault = Text × ℕ

abbrev pub vault_of : Position → Vault
vault_of p = (p.user_address, p.vault_id)

-- `redeemed` has the most collateral that the swap may spend.
pub data Call : Type 0 where
  oracle_price_set : Text → ℕ → ℕ → Call
  controller_price_set : Text → Call
  vault_settled : Vault → Call
  redeemed : Position → ℕ → Call

pub data Write : Type 0 where
  settled : Vault → Text → Write
  reconciled : Vault → Write
  itm_redeemed : Vault → Text → ℕ → Write
  delivery_amount : Vault → Text → ℕ → Write
  itm_failed : Vault → ℕ → Write
  otm : Vault → ℕ → Write

pub record World : Type 0 where
  pub calls : List Call
  pub writes : List Write
  pub tick : ℕ

pub data SwapMode : Type 0 where
  exact_in exact_out : SwapMode

pub record Env : Type 0 where
  pub is_vault_settled : ℕ → ℕ → Result Bool
  pub read_vault_data : ℕ → ℕ → Result (Option VaultData)
  pub otoken_info : ℕ → Text → Result (Option OtokenInfo)
  pub controller_price : ℕ → Text → Result ℕ
  pub oracle_price : ℕ → Text → ℕ → Result ℕ
  pub wait_for_oracle_price : ℕ → Text → ℕ → Result ℕ
  pub pyth_price : ℕ → Text → Result ℕ
  pub fresh_price_update : ℕ → Text → Result Text
  pub set_oracle_price : ℕ → Text → ℕ → ℕ → Text → Result Text
  pub set_controller_price : ℕ → Text → Result Text
  pub ensure_ata : ℕ → Text → Text → Result (Unit {0})
  pub settle_vault : ℕ → Position → VaultData → Result Text
  pub mint_decimals : ℕ → Text → Result ℕ
  pub jupiter_quote : ℕ → Text → Text → ℕ → SwapMode → Result ℕ
  pub build_redeem : ℕ → Position → VaultData → OtokenInfo → ℕ → Result (Unit {0})
  pub physical_redeem : ℕ → Position → ℕ → Result Text
  pub database : ℕ → Option Exn
  pub has_row : ℕ → Vault → Bool
  -- the exceptions that the clauses around the oracle's price and around the controller's one name
  pub is_finalize_error : Exn → Bool
  pub is_send_error : Exn → Bool
  pub settler_config : Text
  pub known_assets : List Text

abbrev pub Action : Type 0 → Type 0
Action A = Exec World A

abbrev pub next_tick : World → World
next_tick w = record w { tick = w.tick + 1 }

abbrev pub record_call : Call → World → World
record_call c w = record w { calls = c ∷ w.calls }

abbrev pub record_write : Write → World → World
record_write c w = record w { writes = c ∷ w.writes }

-- a read
unfoldable pub ask : {A : Type 0} → (ℕ → Result A) → Action A
ask f w = (f w.tick, next_tick w)

abbrev pub sent : Result Text → Call → World → Result Text × World
sent (ok signature) c w = (ok signature, record_call c w)
sent (err e) c w = (err e, record_call c w)

-- A transaction. It is listed whether it answers or raises: one that raises may have been carried out.
unfoldable pub send : (ℕ → Result Text) → Call → Action Text
send f c w = sent (f w.tick) c (next_tick w)

abbrev pub wrote : Option Exn → Bool → Write → World → Result (Unit {0}) × World
wrote (some e) found c w = (err e, w)
wrote none true c w = (ok tt, record_write c w)
wrote none false c w = (ok tt, w)

-- `_db_update`, which only logs where no row matches
unfoldable pub db_update : Env → Vault → Write → Action Unit
db_update env k c w = wrote (env.database w.tick) (env.has_row w.tick k) c (next_tick w)
