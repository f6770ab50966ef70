-- ===== src/Indexer/Events.antt =====
-- src/bots/event_indexer.py, `_fetch_and_store_order_events` and what it calls.
use options_protocol_backend.Prelude.{
  ℕ, Bool, true, false, ◌||◌, Option, none, some, List, [], ◌∷◌, ◌++◌, length, any, if◌then◌else◌,
}
use options_protocol_backend.Prelude.Text.{Text, codes, text_eq, lower, non_empty}
use options_protocol_backend.Prelude.Decimal.{str_nat}
use options_protocol_backend.Exec.{Exn, raised, ok, err, pure, raise, lift, for_each, ◌>>=◌, ◌>>◌}
use options_protocol_backend.Indexer.{
  OrderLog, Metadata, OrderEvent, Row, Answer, written, no_data, broken, Pass, Action, keep_event,
}

-- `_build_order_event_data`, before the enrichment
unfoldable pub build_order_event_data : OrderLog → OrderEvent
unfolding lower str_nat
build_order_event_data ev = record {
  tx_hash = ev.transaction_hash;
  block_number = ev.block_number;
  log_index = ev.log_index;
  user_address = lower ev.user;
  mm_address = lower ev.mm;
  otoken_address = lower ev.otoken;
  amount = str_nat ev.amount;
  premium = str_nat ev.gross_premium;
  gross_premium = str_nat ev.gross_premium;
  net_premium = str_nat ev.net_premium;
  protocol_fee = str_nat ev.fee;
  collateral = str_nat ev.collateral;
  vault_id = ev.vault_id;
  strike_price = none;
  expiry = none;
  is_put = none;
  asset = none;
}

-- `_enrich_with_otoken_metadata`
abbrev pub enrich_with_otoken_metadata : OrderEvent → Option Metadata → Option OrderEvent
enrich_with_otoken_metadata e none = none
enrich_with_otoken_metadata e (some m) = some (record e {
  strike_price = m.strike_price;
  expiry = m.expiry;
  is_put = m.is_put;
  asset = some m.asset;
})

-- The loop of `_fetch_and_store_order_events`: the events to store, and the first block at which
-- one failed. After a failure nothing is kept.
module _ (pass : Pass) where
  unfoldable pub scan_orders : List OrderLog → Option ℕ → List OrderEvent × Option ℕ
  scan_orders [] failed = ([], failed)
  scan_orders (ev ∷ evs) failed =
      keep_event (enrich_with_otoken_metadata (build_order_event_data ev) (pass.order_metadata ev))
        failed ev.block_number (λ f. scan_orders evs f)

abbrev is_none {ℓ} : {A : Type ℓ} → Option A → Bool
is_none none = true
is_none (some a) = false

-- a critical field is missing
abbrev pub is_incomplete : OrderEvent → Bool
is_incomplete e = is_none e.strike_price || is_none e.expiry || is_none e.is_put

unfoldable pub has_row : Text → List Row → Bool
has_row tx = any (λ r. text_eq r.event.tx_hash tx)

-- `upsert(events, on_conflict="tx_hash")`, for one event
unfoldable pub upsert_row : OrderEvent → List Row → List Row
upsert_row e [] = record { event = e; delivery = none } ∷ []
upsert_row e (r ∷ rs) =
    let rest = upsert_row e rs in
    if text_eq r.event.tx_hash e.tx_hash then record r { event = e } ∷ rs else r ∷ rest

unfoldable pub upsert_rows : List OrderEvent → List Row → List Row
unfolding upsert_row
upsert_rows [] rs = rs
upsert_rows (e ∷ es) rs = upsert_rows es (upsert_row e rs)

abbrev pub upsert_order_events : List OrderEvent → Answer → Action ℕ
upsert_order_events es written w =
    (ok (length es), record w { order_events = upsert_rows es w.order_events })
upsert_order_events es no_data w = (
  err (
      raised (
        codes "Supabase upsert returned no data for " ++ (str_nat (length es) ++ codes " events"))),
  w,
)
upsert_order_events es (broken e) w = (err e, w)

abbrev pub refused : Exn
refused = raised (codes "Refusing to store order_event with a missing field")

module _ (pass : Pass) where
  -- `_store_events`
  unfoldable pub store_events : List OrderEvent → Action ℕ
  store_events [] = pure 0
  store_events (e ∷ es) =
      if any is_incomplete (e ∷ es)
      then raise refused
      else upsert_order_events (e ∷ es) (pass.upsert (e ∷ es))

  abbrev pub push_notice : OrderEvent → Action Unit
  push_notice e w = (ok tt, record w { notified = w.notified ++ e ∷ [] })

  -- `_notify_mm`: what is pushed to the market makers, where there is an event loop
  unfoldable pub notify_mm : OrderEvent → Action Unit
  notify_mm e = if non_empty e.mm_address then push_notice e else pure tt

  abbrev pub store_scanned : List OrderEvent × Option ℕ → Action (ℕ × Option ℕ)
  store_scanned (events, failed) = do
    stored ← store_events events
    for_each events notify_mm
    pure (stored, failed)

  unfoldable pub fetch_and_store_order_events : ℕ → ℕ → Action (ℕ × Option ℕ)
  unfolding store_events
  fetch_and_store_order_events from_block to_block = do
    raw_events ← lift (pass.order_logs from_block to_block)
    store_scanned (scan_orders pass raw_events none)
