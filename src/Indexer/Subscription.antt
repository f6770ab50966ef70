-- ===== src/Indexer/Subscription.antt =====
-- The subscription of src/bots/event_indexer.py: how far its handlers may move the cursor.
use mathlib.Core.Path.{subst}
use options_protocol_backend.Prelude.{
  ℕ, zero, suc, ◌≤◌, ◌≡◌, refl, ◌⊎◌, inl, inr, Option, none, some, ◌∷◌, [], arith, leb, Bool-cases,
  leb→le,
}
use options_protocol_backend.Exec.{Result, ok, err}
use options_protocol_backend.Exec.Post.{
  Post, Outcome, Post-pure, Post-bind, Post-gets, Post-try_except, Post-weaken, Outcome-always,
}
use options_protocol_backend.Indexer.{
  OrderLog, DeliveryLog, OrderEvent, Delivery, Indexer, Pass, Addresses, Action,
}
use options_protocol_backend.Indexer.Events.{build_order_event_data, enrich_with_otoken_metadata}
use options_protocol_backend.Indexer.Deliveries.{build_delivery_event_data}
use options_protocol_backend.Indexer.Keeps.{
  Stable, Post-store_events, Post-notify_mm, Post-update_delivery_events,
}
use options_protocol_backend.Indexer.Scan.{Before}
use options_protocol_backend.Indexer.Progress.{Post-set_last_indexed_block}
use options_protocol_backend.Indexer.Cycle.{
  safe_advance_target, advance_to, advance_past, attempt, if_stored, order_log_enriched,
  process_order_subscription_log, delivery_log_built, process_delivery_subscription_log,
}

-- The target is at most the block, and before the failed block on record.
abbrev IsSafe : ℕ → Option ℕ → Option ℕ → Type 0
IsSafe block pending none = Unit
IsSafe block pending (some t) = (t ≤ block) × Before t pending

safe_advance_target-IsSafe :
    (pending : Option ℕ) (block : ℕ) → IsSafe block pending (safe_advance_target pending block)
unfolding safe_advance_target
safe_advance_target-IsSafe none block = (omega arith, tt)
safe_advance_target-IsSafe (some zero) block = tt
safe_advance_target-IsSafe (some (suc p)) block = elim (Bool-cases (leb (suc p) block)) [
  | inl past ↦
      let h : suc p ≤ block = leb→le (suc p) block past in rw past (omega (arith, h), omega arith)
  | inr before ↦ rw before (omega arith, ground (arith, before))
]

-- The cursor is where it was, at `cursor`, or at most at `block` and before any failed block.
abbrev pub Clamped : ℕ → ℕ → Indexer → Type 0
Clamped cursor block w =
    (w.last_indexed_block ≡ cursor)
    ⊎ ((w.last_indexed_block ≤ block) × Before w.last_indexed_block w.pending_failure_block)

module _ (pass : Pass) (cursor block : ℕ) where
  abbrev Still : Indexer → Type 0
  Still w = w.last_indexed_block ≡ cursor

  Still-Stable : Stable Still
  Still-Stable = record { notice = λ w n p. p; growth = λ w rs g p. p }

  if_stored-Outcome :
      {A : Type 0} (x : Result A × Indexer) (next : Action Unit)
      → Outcome (λ _. Still) (λ _. Still) x
      → Post Still next (λ _. Clamped cursor block) (λ _. Clamped cursor block)
      → Outcome
          (λ _. Clamped cursor block)
          (λ _. Clamped cursor block)
          (if_stored pass x.0 next x.1)
  if_stored-Outcome (ok a, w) next h p = p.at w h
  if_stored-Outcome (err e, w) next h p =
      Post.at (Post-pure {P = Clamped cursor block} tt (λ v k. k)) w (inl h)

  Post-attempt :
      {A : Type 0} {m : Action A} {next : Action Unit}
      → Post Still m (λ _. Still) (λ _. Still)
      → Post Still next (λ _. Clamped cursor block) (λ _. Clamped cursor block)
      → Post Still (attempt pass m next) (λ _. Clamped cursor block) (λ _. Clamped cursor block)
  Post-attempt {m = m} {next = next} pm pn = record {
    at = λ w h. if_stored-Outcome (m w) next (pm.at w h) pn;
  }

  Post-advance_to :
      (pending t : Option ℕ)
      → IsSafe block pending t
      → Post
          (λ w. (pending ≡ w.pending_failure_block) × Still w)
          (advance_to pass t)
          (λ _. Clamped cursor block)
          (λ _. Clamped cursor block)
  unfolding advance_to
  Post-advance_to pending none safe = Post-pure tt (λ w h. inl h.1)
  Post-advance_to pending (some t) (inside, before) =
      Post-try_except {E = λ _. Clamped cursor block}
        (Post-set_last_indexed_block pass t (λ w h. inr (inside, subst (Before t) h.0 before))
          (λ w h. inl h.1))
        (λ e. Post-pure tt (λ w h. h))

  Post-advance_past :
      Post Still (advance_past pass block) (λ _. Clamped cursor block) (λ _. Clamped cursor block)
  unfolding advance_past
  Post-advance_past =
      Post-bind {I = λ pending w. (pending ≡ w.pending_failure_block) × Still w}
        (Post-gets (λ w. w.pending_failure_block) (λ w h. (refl, h)))
        (λ pending.
          Post-advance_to pending (safe_advance_target pending block)
            (safe_advance_target-IsSafe pending block))

  Post-order_log :
      (o : Option OrderEvent)
      → Post Still
          (order_log_enriched pass block o)
          (λ _. Clamped cursor block)
          (λ _. Clamped cursor block)
  Post-order_log none = record { at = λ w h. inl h }
  Post-order_log (some e) =
      Post-attempt
        (Post-weaken (Post-store_events pass Still Still-Stable (e ∷ [])) (λ w h. h) (λ _ w h. h.0)
          (λ _ w h. h))
        (Post-bind
          (Post-weaken (Post-notify_mm pass Still Still-Stable e) (λ w h. h) (λ _ w h. h)
            (λ _ w h. inl h))
          (λ _. Post-advance_past))

  Post-delivery_log :
      (o : Option Delivery)
      → Post Still
          (delivery_log_built pass block o)
          (λ _. Clamped cursor block)
          (λ _. Clamped cursor block)
  Post-delivery_log none = record { at = λ w h. inl h }
  Post-delivery_log (some d) =
      Post-attempt (Post-update_delivery_events pass Still Still-Stable (d ∷ [])) Post-advance_past

-- A log of an order from the subscription, whatever fails, leaves the cursor where it was, or moves
-- it to the log's block at most, and then before the failed block that is on record.
pub process_order_subscription_log-Clamped :
    (pass : Pass) (log : OrderLog) (w : Indexer)
    → Clamped w.last_indexed_block log.block_number (process_order_subscription_log pass log w).1
unfolding process_order_subscription_log
process_order_subscription_log-Clamped pass log w =
    Outcome-always (Clamped w.last_indexed_block log.block_number)
      (process_order_subscription_log pass log w)
      (Post.at
        (Post-order_log pass w.last_indexed_block log.block_number
          (enrich_with_otoken_metadata (build_order_event_data log) (pass.order_metadata log)))
        w refl)

-- A log of a delivery from the subscription, whatever fails, leaves the cursor where it was, or
-- moves it to the log's block at most, and then before the failed block that is on record.
pub process_delivery_subscription_log-Clamped :
    (pass : Pass) (at : Addresses) (log : DeliveryLog) (w : Indexer)
    → Clamped w.last_indexed_block log.block_number
        (process_delivery_subscription_log pass at log w).1
unfolding process_delivery_subscription_log
process_delivery_subscription_log-Clamped pass at log w =
    Outcome-always (Clamped w.last_indexed_block log.block_number)
      (process_delivery_subscription_log pass at log w)
      (Post.at
        (Post-delivery_log pass w.last_indexed_block log.block_number
          (build_delivery_event_data at log (pass.delivery_metadata log)))
        w refl)
