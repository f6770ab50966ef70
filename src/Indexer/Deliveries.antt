-- ===== src/Indexer/Deliveries.antt =====
-- src/bots/event_indexer.py, `_fetch_and_update_delivery_events` and what it calls. The branch for a
-- contract without the event `PhysicalDelivery` is left out.
use options_protocol_backend.Prelude.{
  ℕ, ◌+◌, Bool, true, false, ◌&&◌, Option, none, some, List, [], ◌∷◌, any, leb, if◌then◌else◌,
}
use options_protocol_backend.Prelude.Text.{Text, codes, text_eq, lower}
use options_protocol_backend.Prelude.Decimal.{str_nat}
use options_protocol_backend.Exec.{Exn, ok, err, pure, lift, ◌>>=◌}
use options_protocol_backend.Indexer.{
  DeliveryLog, Metadata, Delivery, Row, Pass, Addresses, Action, keep_event,
}

abbrev default_underlying : Addresses → Text → Text
default_underlying at asset =
    if text_eq asset (codes "btc") then lower at.wbtc_address else lower at.weth_address

abbrev text_of : Option Text → Text → Text
text_of none d = d
text_of (some s) d = s

abbrev is_true : Option Bool → Bool
is_true none = false
is_true (some b) = b

-- `_build_delivery_event_data`
unfoldable pub build_delivery_event_data :
    Addresses → DeliveryLog → Option Metadata → Option Delivery
unfolding text_eq lower str_nat
build_delivery_event_data at ev none = none
build_delivery_event_data at ev (some m) = some (record {
  user_address = lower ev.user;
  otoken_address = lower ev.otoken;
  delivered_asset =
      if is_true m.is_put
      then text_of m.underlying (default_underlying at m.asset)
      else lower at.usdc_address;
  delivered_amount = str_nat ev.contra_amount;
  delivery_tx_hash = ev.transaction_hash;
})

-- the row is of the user and the oToken of the delivery
abbrev pub matches : Delivery → Row → Bool
matches d r =
    text_eq r.event.user_address d.user_address && text_eq r.event.otoken_address d.otoken_address

abbrev pub has_delivery : Text → Option Delivery → Bool
has_delivery tx none = false
has_delivery tx (some d) = text_eq d.delivery_tx_hash tx

abbrev pub is_unmarked : Row → Bool
is_unmarked r = elim (r.delivery) [ none ↦ true | some d ↦ false ]

unfoldable pub is_claimed : Delivery → List Row → Bool
is_claimed d = any (λ r. matches d r && has_delivery d.delivery_tx_hash r.delivery)

abbrev pub older : Row → Option Row → Row
older r none = r
older r (some s) = if leb r.event.vault_id s.event.vault_id then r else s

-- `.order("vault_id").limit(1)` of the unmarked rows
unfoldable pub oldest_unmarked : Delivery → List Row → Option Row
oldest_unmarked d [] = none
oldest_unmarked d (r ∷ rs) =
    let rest = oldest_unmarked d rs in
    if matches d r && is_unmarked r then some (older r rest) else rest

unfoldable pub mark_row : Delivery → Text → List Row → List Row
mark_row d tx [] = []
mark_row d tx (r ∷ rs) =
    (if text_eq r.event.tx_hash tx then record r { delivery = some d } else r) ∷ mark_row d tx rs

abbrev pub claim : Delivery → List Row → Option Row → List Row × ℕ
claim d rs none = (rs, 0)
claim d rs (some r) = (mark_row d r.event.tx_hash rs, 1)

-- one round of `_update_delivery_events`, with the number of rows it updates
unfoldable pub update_delivery_event : Delivery → List Row → List Row × ℕ
unfolding is_claimed oldest_unmarked mark_row
update_delivery_event d rs = if is_claimed d rs then (rs, 0) else claim d rs (oldest_unmarked d rs)

module _ (pass : Pass) where
  abbrev pub apply_delivery : Delivery → Option Exn → Action ℕ
  apply_delivery d none w = (
    ok (update_delivery_event d w.order_events).1,
    record w { order_events = (update_delivery_event d w.order_events).0 },
  )
  apply_delivery d (some e) w = (err e, w)

  unfoldable pub update_delivery_events : List Delivery → Action ℕ
  update_delivery_events [] = pure 0
  update_delivery_events (d ∷ ds) = do
    n ← apply_delivery d (pass.delivery_update d)
    m ← update_delivery_events ds
    pure (n + m)

  -- the loop of `_fetch_and_update_delivery_events`
  unfoldable pub scan_deliveries :
      Addresses → List DeliveryLog → Option ℕ → List Delivery × Option ℕ
  scan_deliveries at [] failed = ([], failed)
  scan_deliveries at (ev ∷ evs) failed =
      keep_event (build_delivery_event_data at ev (pass.delivery_metadata ev)) failed
        ev.block_number (λ f. scan_deliveries at evs f)

  abbrev pub update_scanned : List Delivery × Option ℕ → Action (ℕ × Option ℕ)
  update_scanned (deliveries, failed) = do n ← update_delivery_events deliveries; pure (n, failed)

  unfoldable pub fetch_and_update_delivery_events : Addresses → ℕ → ℕ → Action (ℕ × Option ℕ)
  unfolding update_delivery_events
  fetch_and_update_delivery_events at from_block to_block = do
    raw_events ← lift (pass.delivery_logs from_block to_block)
    update_scanned (scan_deliveries at raw_events none)
