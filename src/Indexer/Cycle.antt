-- ===== src/Indexer/Cycle.antt =====
-- src/bots/event_indexer.py: `index_once` and the handlers of the subscription. A log of the
-- subscription that cannot be decoded does nothing, and has no clause here.
use options_protocol_backend.Prelude.{
  ℕ, zero, suc, ◌+◌, ◌-◌, min, Option, none, some, [], ◌∷◌, ltb, leb, if◌then◌else◌,
}
use options_protocol_backend.Exec.{Exn, Result, ok, err, pure, gets, try_except, ◌>>=◌, ◌>>◌}
use options_protocol_backend.Indexer.{
  OrderLog, DeliveryLog, OrderEvent, Delivery, Pass, Addresses, Action, lower_block,
}
use options_protocol_backend.Indexer.Events.{
  build_order_event_data, enrich_with_otoken_metadata, store_events, notify_mm,
  fetch_and_store_order_events,
}
use options_protocol_backend.Indexer.Deliveries.{
  build_delivery_event_data, update_delivery_events, fetch_and_update_delivery_events,
}

abbrev pub block_range : ℕ
block_range = 2000

abbrev pub confirmation_blocks : ℕ
confirmation_blocks = 2

abbrev pub rescan_blocks : ℕ
rescan_blocks = 50

-- `min` of the blocks that are there
abbrev pub first_failure : Option ℕ → Option ℕ → Option ℕ
first_failure none o = o
first_failure (some a) none = some a
first_failure (some a) (some b) = some (min a b)

abbrev pub remember_failure : ℕ → Action Unit
remember_failure b w =
    (ok tt, record w { pending_failure_block = some (lower_block w.pending_failure_block b) })

abbrev cleared : Option ℕ → ℕ → Option ℕ
cleared none b = none
cleared (some p) b = if leb p b then none else some p

-- a failure at or below the block is resolved
abbrev pub clear_failure : ℕ → Action Unit
clear_failure b w = (ok tt, record w { pending_failure_block = cleared w.pending_failure_block b })

module _ (pass : Pass) where
  abbrev pub write_cursor : ℕ → Option Exn → Action Unit
  write_cursor b none w = (ok tt, record w { last_indexed_block = b })
  write_cursor b (some e) w = (err e, w)

  -- `_set_last_indexed_block`
  unfoldable pub set_last_indexed_block : ℕ → Action Unit
  set_last_indexed_block b = write_cursor b (pass.cursor_update b)

  abbrev pub read_cursor : Option Exn → Action ℕ
  read_cursor none w = (ok w.last_indexed_block, w)
  read_cursor (some e) w = (err e, w)

  -- `_get_last_indexed_block`; a table without its row counts as 0
  unfoldable pub get_last_indexed_block : Action ℕ
  get_last_indexed_block = read_cursor pass.cursor_read

  -- how the forward pass moves the cursor
  unfoldable pub settle_cursor : ℕ → ℕ → Option ℕ → Action Unit
  unfolding set_last_indexed_block
  settle_cursor from_block to_block none = do
    set_last_indexed_block to_block
    clear_failure to_block
  settle_cursor from_block to_block (some min_failed) = do
    if leb min_failed from_block then pure tt else set_last_indexed_block (min_failed - 1)
    remember_failure min_failed

  abbrev pub to_block_of : ℕ → ℕ → ℕ
  to_block_of from_block safe_block = min (from_block + block_range - 1) safe_block

  abbrev pub settle_failures : ℕ → ℕ → ℕ × Option ℕ → ℕ × Option ℕ → Action Unit
  settle_failures from_block to_block (stored, order_fail) (delivered, delivery_fail) =
      settle_cursor from_block to_block (first_failure order_fail delivery_fail)

  -- Pass 1, over the blocks after the cursor
  unfoldable pub forward_pass : Addresses → ℕ → ℕ → Action Unit
  unfolding settle_cursor
  forward_pass at from_block to_block = do
    orders ← fetch_and_store_order_events pass from_block to_block
    deliveries ← fetch_and_update_delivery_events pass at from_block to_block
    settle_failures from_block to_block orders deliveries

  -- the body of the `try` of pass 2
  unfoldable pub rescan : Addresses → ℕ → ℕ → Action Unit
  rescan at rescan_from rescan_to = do
    rescued ← fetch_and_store_order_events pass rescan_from rescan_to
    rescued_delivery ← fetch_and_update_delivery_events pass at rescan_from rescan_to
    pure tt

  -- Pass 2: what it raises is only logged
  unfoldable pub rescan_pass : Addresses → ℕ → ℕ → Action Unit
  unfolding rescan
  rescan_pass at rescan_from rescan_to =
      if ltb rescan_from rescan_to
      then try_except (rescan at rescan_from rescan_to) (λ _. pure tt)
      else pure tt

module _ (forward again : Pass) (at : Addresses) where
  abbrev pub rescan_to_of : ℕ → ℕ → ℕ
  rescan_to_of safe_block rescan_from = min safe_block (rescan_from + block_range - 1)

  abbrev pub forward_part : ℕ → ℕ → Action Unit
  forward_part safe_block last_indexed =
      if leb (last_indexed + 1) safe_block
      then forward_pass forward at (last_indexed + 1)
          (to_block_of forward (last_indexed + 1) safe_block)
      else pure tt

  abbrev pub both_passes : ℕ → ℕ → Action Unit
  both_passes safe_block last_indexed = do
    forward_part safe_block last_indexed
    rescan_pass again at (last_indexed - rescan_blocks)
        (rescan_to_of safe_block (last_indexed - rescan_blocks))

  -- With the head of the chain at `current_block`. Python's differences may be negative where these
  -- stop at 0; both ways no block is in the range.
  unfoldable pub index_once : ℕ → Action Unit
  unfolding get_last_indexed_block forward_pass rescan_pass
  index_once current_block = do
    last_indexed ← get_last_indexed_block forward
    both_passes (current_block - confirmation_blocks) last_indexed

-- `_safe_advance_target`, with `none` for a target below 0, which the callers drop
unfoldable pub safe_advance_target : Option ℕ → ℕ → Option ℕ
safe_advance_target none block = some block
safe_advance_target (some zero) block = none
safe_advance_target (some (suc p)) block = if leb (suc p) block then some p else some block

module _ (pass : Pass) where
  -- a cursor that could not be written is only logged
  unfoldable pub advance_to : Option ℕ → Action Unit
  unfolding set_last_indexed_block
  advance_to none = pure tt
  advance_to (some target) = try_except (set_last_indexed_block pass target) (λ _. pure tt)

  unfoldable pub advance_past : ℕ → Action Unit
  unfolding advance_to
  advance_past block = do
    pending ← gets (λ w. w.pending_failure_block)
    advance_to (safe_advance_target pending block)

  -- the handlers go on only where their `try` went through
  abbrev pub if_stored : {A : Type 0} → Result A → Action Unit → Action Unit
  if_stored (ok n) next = next
  if_stored (err e) next = pure tt

  abbrev pub attempt : {A : Type 0} → Action A → Action Unit → Action Unit
  attempt m next w = if_stored (m w).0 next (m w).1

  abbrev pub order_log_enriched : ℕ → Option OrderEvent → Action Unit
  order_log_enriched block none = remember_failure block
  order_log_enriched block (some e) =
      attempt (store_events pass (e ∷ [])) (notify_mm pass e >> advance_past block)

  unfoldable pub process_order_subscription_log : OrderLog → Action Unit
  unfolding advance_past
  process_order_subscription_log log =
      order_log_enriched log.block_number
        (enrich_with_otoken_metadata (build_order_event_data log) (pass.order_metadata log))

  abbrev pub delivery_log_built : ℕ → Option Delivery → Action Unit
  delivery_log_built block none = remember_failure block
  delivery_log_built block (some d) =
      attempt (update_delivery_events pass (d ∷ [])) (advance_past block)

  unfoldable pub process_delivery_subscription_log : Addresses → DeliveryLog → Action Unit
  unfolding advance_past
  process_delivery_subscription_log at log =
      delivery_log_built log.block_number
        (build_delivery_event_data at log (pass.delivery_metadata log))
