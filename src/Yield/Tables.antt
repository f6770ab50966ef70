-- ===== src/Yield/Tables.antt =====
-- src/bots/yield_airdrop.py: the tables, the transfers and the environment of an airdrop.
use options_protocol_backend.Prelude.{
  ℕ, ◌+◌, Bool, true, false, ◌&&◌, Option, none, some, List, [], ◌∷◌, any, if◌then◌else◌,
}
use options_protocol_backend.Prelude.Text.{Text, codes, text_eq}
use options_protocol_backend.Prelude.Int.{ℤ}
use options_protocol_backend.Exec.{Exn, external, Result, ok, err, Exec}
use options_protocol_backend.Yield.{Position, Allocation}

-- a row of `yield_distributions`
pub record Distribution : Type 0 where
  pub id : Text
  pub harvest_tx_hash : Text
  pub asset : Text
  pub total_yield : ℕ
  pub platform_fee : ℕ
  pub period_start : ℕ
  pub period_end : ℕ

-- a row of `yield_allocations`
pub record AllocationRow : Type 0 where
  pub id : Text
  pub allocation : Allocation
  pub is_delivered : Bool
  pub airdrop_tx_hash : Option Text

pub record Transfer : Type 0 where
  pub asset : Text
  pub recipient : Text
  pub amount : ℕ

-- `harvests` are the assets and amounts that harvests returned; `transfers` are those that were sent, also
-- where the call raised, since the chain may have carried it out; each the latest first.
pub record World : Type 0 where
  pub distributions : List Distribution
  pub allocations : List AllocationRow
  pub harvests : List (Text × ℕ)
  pub transfers : List Transfer
  pub tick : ℕ

-- Reads, calls and queries are numbered by `tick`. `harvested_in` is the amount that the events of a
-- receipt show, if any does.
pub record Env : Type 0 where
  pub asset_address : Text → Option Text
  pub treasury : Text
  pub protocol_fee_bps : ℕ
  pub accrued_yield : ℕ → Text → Result ℕ
  pub harvest_yield : ℕ → Text → Result Text
  pub harvested_in : ℕ → Text → Result (Option ℕ)
  pub to_checksum_address : Text → Result Text
  pub transfer : ℕ → Text → Text → ℕ → Result Text
  pub database : ℕ → Option Exn
  pub new_id : ℕ → Text
  pub row_id : ℕ → ℕ → Text
  pub yield_positions : ℕ → Text → Result (List Position)
  pub share : ℕ → ℕ → ℕ → ℕ

abbrev pub Action : Type 0 → Type 0
Action A = Exec World A

abbrev pub next_tick : World → World
next_tick w = record w { tick = w.tick + 1 }

abbrev pub ask : {A : Type 0} → (ℕ → Result A) → Action A
ask f w = (f w.tick, next_tick w)

abbrev pub answer : {A : Type 0} → Result A → (A → World → World) → Action A
answer (ok a) f w = (ok a, f a (next_tick w))
answer (err e) f w = (err e, next_tick w)

abbrev pub on_database : {A : Type 0} → Option Exn → (World → A) → (World → World) → Action A
on_database none q f w = (ok (q w), f (next_tick w))
on_database (some e) q f w = (err e, next_tick w)

-- what an asset brought: nothing, with no address or no yield
pub data AssetSummary : Type 0 where
  skipped : AssetSummary
  processed :
      (harvested platform_fee distributable allocations delivered failed : ℕ) (dust : ℤ)
      → AssetSummary
  failed_asset : AssetSummary

abbrev pub amount_or : ℕ → Option ℕ → ℕ
amount_or accrued none = accrued
amount_or accrued (some actual) = actual

-- a primary key is refused where a row has it
abbrev pub key_taken : Bool → Option Exn → Option Exn
key_taken true o = some (external (codes "duplicate key"))
key_taken false o = o

abbrev pub has_distribution : Text → List Distribution → Bool
has_distribution id ds = any (λ d. text_eq d.id id) ds

-- the rows of an insertion, under the ids that the database gives them
unfoldable pub allocation_rows : (ℕ → Text) → ℕ → List Allocation → List AllocationRow
allocation_rows ids i [] = []
allocation_rows ids i (a ∷ xs) =
    record { id = ids i; allocation = a; is_delivered = false; airdrop_tx_hash = none }
    ∷ allocation_rows ids (i + 1) xs

abbrev pub is_pending_of : Text → AllocationRow → Bool
is_pending_of id r =
    text_eq r.allocation.distribution_id id && (if r.is_delivered then false else true)

unfoldable pub mark_paid : Text → Text → List AllocationRow → List AllocationRow
mark_paid id tx [] = []
mark_paid id tx (r ∷ rs) =
    (if text_eq r.id id then record r { is_delivered = true; airdrop_tx_hash = some tx } else r)
    ∷ mark_paid id tx rs
