-- ===== src/Capital/Reconcile.antt =====
-- src/capital_intents/reconcile.py: the pass over the deployed intents, which turns a settled position
-- into a new intent for the next cycle. The time stamps are left out.
mod Rows
unfoldable pub use Rows.*
use options_protocol_backend.Prelude.{
  ℕ, ◌+◌, Bool, false, ◌&&◌, ◌||◌, Option, none, some, List, [], ◌∷◌, ◌++◌, take, filter, length,
  if◌then◌else◌,
}
use options_protocol_backend.Prelude.Text.{Text, codes, text_eq, truthy, or_else}
use options_protocol_backend.Prelude.Int.{ℤ, pos, leb_ℤ}
use options_protocol_backend.Prelude.Decimal.{parse_int, str_int}
use options_protocol_backend.Exec.{Exn, raised, external, Result, pure, ◌>>=◌, ◌>>◌}
use options_protocol_backend.Bridge.{Chain, arc, base, solana}
use options_protocol_backend.Capital.{
  CapitalIntentType, MovementReason, CapitalIntentStatus, Intent, IntentFields, no_updates,
  status_eq,
}
use options_protocol_backend.Capital.Create.{is_venue}
use options_protocol_backend.Capital.Table.{find_key, require}
use options_protocol_backend.Capital.Table
use options_protocol_backend.Store.{Env, Action, next_tick}

-- the counters
abbrev pub count_skipped : ReconcileSummary → ReconcileSummary
count_skipped s = record s { skipped_unsettled = s.skipped_unsettled + 1 }

abbrev pub count_retryable : ReconcileSummary → ReconcileSummary
count_retryable s = record s { retryable = s.retryable + 1 }

abbrev pub count_assigned : ReconcileSummary → ReconcileSummary
count_assigned s = record s { assigned = s.assigned + 1 }

abbrev pub count_already : ReconcileSummary → ReconcileSummary
count_already s = record s { already_reconciled = s.already_reconciled + 1 }

abbrev pub count_waiting : ReconcileSummary → ReconcileSummary
count_waiting s = record s { waiting_created = s.waiting_created + 1 }

-- `order_event` answers the query for the event of a transaction.
module _ (env : Env) (accounts : Accounts)
    (order_event : ℕ → Text → Result (Option OrderEvent)) where
  -- an exception that comes out of the client as it is
  abbrev pub failure : Exn
  failure = external (codes "database")

  unfoldable pub select_event : Text → Action (Option OrderEvent)
  select_event tx w = (order_event w.tick tx, next_tick w)

  -- `_read_order_event_for_intent`
  abbrev pub read_order_event : Option Text → Action (Option OrderEvent)
  read_order_event (some (c ∷ s)) = select_event (c ∷ s)
  read_order_event _ = pure none

  -- `_update_intent_status`
  unfoldable pub update_intent_status : Intent → CapitalIntentStatus → Option Text → Action Unit
  unfolding Table.update_intent
  update_intent_status intent status failure_reason = do
    updated ← Table.update_intent env failure intent.id (settled_fields status failure_reason)
    found ← require (raised (codes "capital intent update returned no data: " ++ intent.id)) updated
    pure tt

  abbrev pub mark_original_completed : Intent → Action Unit
  mark_original_completed intent = update_intent_status intent CapitalIntentStatus.completed none

  -- `_read_existing_rotation`
  unfoldable pub read_existing_rotation : Text → Action (Option Intent)
  unfolding Table.select_intents
  read_existing_rotation key = Table.select_intents env failure (find_key key)

  -- a rotation that is to be inserted, if there is one
  abbrev pub insert_rotation :
      Intent → ReconcileSummary → Option (Text → Intent) → Action ReconcileSummary
  insert_rotation intent s none = pure s
  insert_rotation intent s (some row) = do
    rotation ← Table.insert_intent_row env failure row
    mark_original_completed intent
    pure (count_waiting s)

  abbrev pub rotate_unless :
      Intent → OrderEvent → ReconcileSummary → Option Intent → Action ReconcileSummary
  rotate_unless intent event s (some i) = do mark_original_completed intent; pure (count_already s)
  rotate_unless intent event s none =
      insert_rotation intent s
        (rotation_row accounts intent event (rotation_idempotency_key intent event))

  unfoldable pub rotate : Intent → OrderEvent → ReconcileSummary → Action ReconcileSummary
  unfolding read_existing_rotation update_intent_status rotation_row
  rotate intent event s = do
    existing ← read_existing_rotation (rotation_idempotency_key intent event)
    rotate_unless intent event s existing

  abbrev pub mark_retryable : Intent → ReconcileSummary → Action ReconcileSummary
  mark_retryable intent s = do
    update_intent_status intent CapitalIntentStatus.retryable
        (some (codes "Physical delivery failed after expiry"))
    pure (count_retryable s)

  abbrev pub mark_assigned : Intent → ReconcileSummary → Action ReconcileSummary
  mark_assigned intent s = do
    update_intent_status intent CapitalIntentStatus.assigned_rotating none
    pure (count_assigned s)

  abbrev pub reconcile_settled : Intent → OrderEvent → ReconcileSummary → Action ReconcileSummary
  reconcile_settled intent event s =
      if has_failed event
      then mark_retryable intent s
      else if is_assigned event
      then mark_assigned intent s
      else rotate intent event s

  abbrev pub reconcile_event :
      Intent → ReconcileSummary → Option OrderEvent → Action ReconcileSummary
  reconcile_event intent s none = pure s
  reconcile_event intent s (some event) =
      if is_settled event then reconcile_settled intent event s else pure (count_skipped s)

  -- one round of the loop
  unfoldable pub reconcile_intent : Intent → ReconcileSummary → Action ReconcileSummary
  unfolding rotate update_intent_status is_settled is_assigned select_event
  reconcile_intent intent s = do
    event ← read_order_event intent.destination_tx
    reconcile_event intent s event

  unfoldable pub reconcile_all : List Intent → ReconcileSummary → Action ReconcileSummary
  unfolding reconcile_intent
  reconcile_all [] s = pure s
  reconcile_all (i ∷ is) s = do s' ← reconcile_intent i s; reconcile_all is s'

  abbrev pub empty_summary : ℕ → ReconcileSummary
  empty_summary n = record {
    inspected = n;
    skipped_unsettled = 0;
    waiting_created = 0;
    already_reconciled = 0;
    assigned = 0;
    retryable = 0;
  }

  unfoldable pub reconcile_settled_positions : ℕ → Action ReconcileSummary
  unfolding reconcile_all deployed_intents
  reconcile_settled_positions limit = do
    deployed ← Table.select_intents env failure (deployed_intents limit)
    reconcile_all deployed (empty_summary (length deployed))
