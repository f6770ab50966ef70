-- ===== src/Market.antt =====
-- src/api/mm_routes.py, src/api/routes.py and src/bots/circuit_breaker_bot.py: the table `mm_quotes`
-- of the market makers' quotes. A strike is a float in the source; it is only compared for equality,
-- and stands here as a number. The columns `id` and `created_at` are left out, and a `quote_id`,
-- `bid_price` or `max_amount` is the number whose text the table has.
pub mod Verify
pub mod Submit
pub mod Rows
pub mod Signed
pub mod Checked
pub mod Written
pub mod Submitted
pub mod Halt
pub mod Halted
pub mod Serve
pub mod Best
pub mod Served
mod Tests
use options_protocol_backend.Prelude.{
  ℕ, ◌+◌, Bool, true, false, ◌&&◌, Option, none, some, List, [], ◌∷◌, ltb, ◌==◌, if◌then◌else◌,
}
use options_protocol_backend.Prelude.Text.{Text, codes, text_eq, lower, starts_with}
use options_protocol_backend.Exec.{Exn, Result, ok, err, Exec}
use options_protocol_backend.Bridge.{Chain}
use options_protocol_backend.Bridge.Cctp.{Bytes}

-- a submission that passed the checks of its class
pub record QuoteSubmission : Type 0 where
  pub otoken_address : Text
  pub bid_price : ℕ
  pub deadline : ℕ
  pub quote_id : ℕ
  pub max_amount : ℕ
  pub maker_nonce : ℕ
  pub signature : Text
  pub chain : Chain
  pub maker : Option Text
  pub asset : Text
  pub strike_price : Option ℕ
  pub expiry : Option ℕ
  pub is_put : Option Bool

-- a row of `mm_quotes`
pub record QuoteRow : Type 0 where
  pub mm_address : Text
  pub otoken_address : Text
  pub bid_price : ℕ
  pub deadline : ℕ
  pub quote_id : ℕ
  pub max_amount : ℕ
  pub maker_nonce : ℕ
  pub signature : Text
  pub chain : Chain
  pub asset : Text
  pub strike_price : Option ℕ
  pub expiry : Option ℕ
  pub is_put : Option Bool
  pub is_active : Bool

-- `increments` are the calls that were to increment the operator's nonce, with their answers, the
-- latest first. One that raised may have been carried out all the same, since the wait for its receipt
-- raises too.
pub record World : Type 0 where
  pub quotes : List QuoteRow
  pub increments : List (Result Text)
  pub tick : ℕ

-- What the code takes from the database, the chains and the libraries that check signatures; reads
-- and calls are numbered by `tick`.
pub record Env : Type 0 where
  pub database : ℕ → Option Exn
  pub base_nonce : ℕ → Text → Result ℕ
  pub solana_nonce : ℕ → Text → Result ℕ
  -- `recover_quote_signer`: oToken, bid, deadline, id, amount, nonce and signature
  pub recover_quote_signer : Text → ℕ → ℕ → ℕ → ℕ → ℕ → Text → Result Text
  pub solana_usdc_mint : Text
  pub pubkey : Text → Result Bytes
  pub signature_bytes : Text → Result Bytes
  pub verify_solana_quote : Bytes → Bytes → Bytes → Bool
  pub increment_maker_nonce : ℕ → Result Text

abbrev pub Action : Type 0 → Type 0
Action A = Exec World A

abbrev pub next_tick : World → World
next_tick w = record w { tick = w.tick + 1 }

-- a query or a write, which answers unless the database raises, and then it changes nothing
abbrev pub on_quotes :
    {A : Type 0} → Option Exn → (List QuoteRow → A) → (List QuoteRow → List QuoteRow) → Action A
on_quotes none q f w = (ok (q w.quotes), record w { quotes = f w.quotes; tick = w.tick + 1 })
on_quotes (some e) q f w = (err e, next_tick w)

-- a read of a chain
abbrev pub ask : {A : Type 0} → (ℕ → Result A) → Action A
ask f w = (f w.tick, next_tick w)

-- `.update({"is_active": False})` of the rows that a query selects
unfoldable pub deactivate : (QuoteRow → Bool) → List QuoteRow → List QuoteRow
deactivate p [] = []
deactivate p (r ∷ rs) = (if p r then record r { is_active = false } else r) ∷ deactivate p rs

-- `_normalize_mm_address`
unfoldable pub normalize_mm_address : Text → Text
unfolding starts_with lower
normalize_mm_address addr = if starts_with addr (codes "0x") then lower addr else addr

-- `column.lt.n` of a nullable column
abbrev pub column_lt : Option ℕ → ℕ → Bool
column_lt none n = false
column_lt (some m) n = ltb m n
