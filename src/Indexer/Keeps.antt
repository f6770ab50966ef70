-- ===== src/Indexer/Keeps.antt =====
-- What the two fetches of src/bots/event_indexer.py do to the cursor and to the rows.
use options_protocol_backend.Prelude.{
  ℕ, ◌+◌, Bool, true, false, ◌||◌, ◌≡◌, refl, ◌∙◌, Option, none, some, List, [], ◌∷◌, ◌++◌, any,
  All, Bool-cases, inl, inr,
}
use options_protocol_backend.Prelude.Text.{Text, text_eq, text_eq_iff, non_empty}
use options_protocol_backend.Exec.{Exn, ok}
use options_protocol_backend.Exec.Post.{
  Post, Post-pure, Post-raise, Post-if, Post-bind, Post-bind-lift, Post-for_each, Post-weaken,
}
use options_protocol_backend.Indexer.{
  OrderEvent, Delivery, Row, Indexer, Answer, written, no_data, broken, Pass, Addresses,
}
use options_protocol_backend.Indexer.Events.{
  has_row, upsert_row, upsert_rows, store_events, is_incomplete, upsert_order_events, notify_mm,
  scan_orders, store_scanned, fetch_and_store_order_events,
}
use options_protocol_backend.Indexer.Deliveries.{
  update_delivery_events, update_delivery_event, is_claimed, oldest_unmarked, claim, mark_row,
  fetch_and_update_delivery_events, scan_deliveries, apply_delivery, update_scanned,
}

or_again : (a b : Bool) → (a || b) ≡ (a || (a || b))
or_again true b = refl
or_again false b = refl

or_swap : (a b c : Bool) → (a || (b || c)) ≡ (b || (a || c))
or_swap true true c = refl
or_swap true false c = refl
or_swap false true c = refl
or_swap false false c = refl

or_right : (a b : Bool) → b ≡ true → (a || b) ≡ true
or_right true b h = refl
or_right false b h = h

pub has_row-upsert_row :
    (tx : Text) (e : OrderEvent) (rs : List Row)
    → has_row tx (upsert_row e rs) ≡ (text_eq e.tx_hash tx || has_row tx rs)
unfolding has_row upsert_row
has_row-upsert_row tx e [] = refl
has_row-upsert_row tx e (r ∷ rs) = elim (Bool-cases (text_eq r.event.tx_hash e.tx_hash)) [
  | inl same ↦
      rw (same, (text_eq_iff r.event.tx_hash e.tx_hash).0 same)
        (or_again (text_eq e.tx_hash tx) (has_row tx rs))
  | inr other ↦
      rw (other, has_row-upsert_row tx e rs)
        (or_swap (text_eq r.event.tx_hash tx) (text_eq e.tx_hash tx) (has_row tx rs))
]

-- Every row that is there stays.
abbrev pub Grows : List Row → List Row → Type 0
Grows rs rs' = (tx : Text) → has_row tx rs ≡ true → has_row tx rs' ≡ true

upsert_rows-Grows : (es : List OrderEvent) (rs : List Row) → Grows rs (upsert_rows es rs)
unfolding upsert_rows
upsert_rows-Grows [] rs tx h = h
upsert_rows-Grows (e ∷ es) rs tx h =
    upsert_rows-Grows es (upsert_row e rs) tx
      (has_row-upsert_row tx e rs ∙ or_right (text_eq e.tx_hash tx) (has_row tx rs) h)

has_row-mark_row :
    (tx : Text) (d : Delivery) (k : Text) (rs : List Row)
    → has_row tx (mark_row d k rs) ≡ has_row tx rs
unfolding has_row mark_row
has_row-mark_row tx d k [] = refl
has_row-mark_row tx d k (r ∷ rs) = elim (Bool-cases (text_eq r.event.tx_hash k)) [
  | inl same ↦ rw (same, has_row-mark_row tx d k rs)
  | inr other ↦ rw (other, has_row-mark_row tx d k rs)
]

claim-Grows : (d : Delivery) (rs : List Row) (o : Option Row) → Grows rs (claim d rs o).0
claim-Grows d rs none tx h = h
claim-Grows d rs (some r) tx h = has_row-mark_row tx d r.event.tx_hash rs ∙ h

update_delivery_event-Grows :
    (d : Delivery) (rs : List Row) → Grows rs (update_delivery_event d rs).0
unfolding update_delivery_event
update_delivery_event-Grows d rs tx h = elim (Bool-cases (is_claimed d rs)) [
  | inl claimed ↦ rw claimed h
  | inr open_ ↦ rw open_ (claim-Grows d rs (oldest_unmarked d rs) tx h)
]

-- the events are all stored
abbrev pub Stored : List OrderEvent → Indexer → Type 0
Stored es w = All (λ e. has_row e.tx_hash w.order_events ≡ true) es

All-Grows :
    (es : List OrderEvent) (rs rs' : List Row)
    → Grows rs rs'
    → All (λ e. has_row e.tx_hash rs ≡ true) es
    → All (λ e. has_row e.tx_hash rs' ≡ true) es
All-Grows [] rs rs' g h = tt
All-Grows (e ∷ es) rs rs' g (here, rest) = (g e.tx_hash here, All-Grows es rs rs' g rest)

upsert_rows-Stored :
    (es : List OrderEvent) (rs : List Row)
    → All (λ e. has_row e.tx_hash (upsert_rows es rs) ≡ true) es
unfolding upsert_rows
upsert_rows-Stored [] rs = tt
upsert_rows-Stored (e ∷ es) rs = (
  upsert_rows-Grows es (upsert_row e rs) e.tx_hash
      (has_row-upsert_row e.tx_hash e rs ∙ rw ((text_eq_iff e.tx_hash e.tx_hash).1 refl) refl),
  upsert_rows-Stored es (upsert_row e rs),
)

-- A predicate that notices do not touch and that more rows do not break.
pub record Stable (P : Indexer → Type 0) : Type 0 where
  pub notice : (w : Indexer) (n : List OrderEvent) → P w → P (record w { notified = n })
  pub growth :
      (w : Indexer) (rs : List Row)
      → Grows w.order_events rs
      → P w
      → P (record w { order_events = rs })

pub Stored-Stable :
    (P : Indexer → Type 0) (es : List OrderEvent) → Stable P → Stable (λ w. P w × Stored es w)
Stored-Stable P es stable = record {
  notice = λ w n (p, h). (stable.notice w n p, h);
  growth = λ w rs g (p, h). (stable.growth w rs g p, All-Grows es w.order_events rs g h);
}

module _ (pass : Pass) (P : Indexer → Type 0) (stable : Stable P) where
  Post-upsert :
      (es : List OrderEvent) (a : Answer)
      → Post P (upsert_order_events es a) (λ _ w. P w × Stored es w) (λ _. P)
  Post-upsert es written = record {
    at = λ w p. (
      stable.growth w (upsert_rows es w.order_events) (upsert_rows-Grows es w.order_events) p,
      upsert_rows-Stored es w.order_events,
    );
  }
  Post-upsert es no_data = record { at = λ w p. p }
  Post-upsert es (broken e) = record { at = λ w p. p }

  pub Post-store_events :
      (es : List OrderEvent) → Post P (store_events pass es) (λ _ w. P w × Stored es w) (λ _. P)
  unfolding store_events
  Post-store_events [] = Post-pure 0 (λ w p. (p, tt))
  Post-store_events (e ∷ es) =
      Post-if (any is_incomplete (e ∷ es)) _ _ (λ _. Post-raise _ (λ w p. p))
        (λ _. Post-upsert (e ∷ es) (pass.upsert (e ∷ es)))

  pub Post-notify_mm : (e : OrderEvent) → Post P (notify_mm pass e) (λ _. P) (λ _. P)
  unfolding notify_mm
  Post-notify_mm e =
      Post-if (non_empty e.mm_address) _ _
        (λ _. record { at = λ w p. stable.notice w (w.notified ++ e ∷ []) p })
        (λ _. Post-pure tt (λ w p. p))

module _ (pass : Pass) (P : Indexer → Type 0) (stable : Stable P) where
  Post-store_scanned :
      (x : List OrderEvent × Option ℕ)
      → Post P (store_scanned pass x) (λ r w. (P w × Stored x.0 w) × (r.1 ≡ x.1)) (λ _. P)
  Post-store_scanned (events, failed) =
      Post-bind (Post-store_events pass P stable events) (λ stored.
        Post-bind
          (Post-for_each events (notify_mm pass) (λ e.
            Post-weaken
              (Post-notify_mm pass (λ w. P w × Stored events w) (Stored-Stable P events stable) e)
              (λ w h. h) (λ _ w h. h) (λ _ w h. h.0)))
          (λ _. Post-pure (stored, failed) (λ w h. (h, refl))))

  -- A fetch of orders that returns has read the logs of the range, stored what its scan kept, and
  -- returns the scan's failed block.
  pub Post-fetch_and_store_order_events :
      (from to : ℕ)
      → Post P
          (fetch_and_store_order_events pass from to)
          (λ r w.
            P w
            × ((logs : _) × (pass.order_logs from to ≡ ok logs)
                × Stored (scan_orders pass logs none).0 w
                × (r.1 ≡ (scan_orders pass logs none).1)))
          (λ _. P)
  unfolding fetch_and_store_order_events
  Post-fetch_and_store_order_events from to =
      Post-bind-lift (pass.order_logs from to) _
        (λ logs e.
          Post-weaken (Post-store_scanned (scan_orders pass logs none)) (λ w p. p)
            (λ r w h. (h.0.0, (logs, e, h.0.1, h.1))) (λ _ w p. p))
        (λ e w p. p)

  Post-apply_delivery :
      (d : Delivery) (a : Option Exn) → Post P (apply_delivery pass d a) (λ _. P) (λ _. P)
  Post-apply_delivery d none = record {
    at = λ w p.
        stable.growth w (update_delivery_event d w.order_events).0
          (update_delivery_event-Grows d w.order_events) p;
  }
  Post-apply_delivery d (some e) = record { at = λ w p. p }

  pub Post-update_delivery_events :
      (ds : List Delivery) → Post P (update_delivery_events pass ds) (λ _. P) (λ _. P)
  unfolding update_delivery_events
  Post-update_delivery_events [] = Post-pure 0 (λ w p. p)
  Post-update_delivery_events (d ∷ ds) =
      Post-bind (Post-apply_delivery d (pass.delivery_update d))
        (λ n. Post-bind (Post-update_delivery_events ds) (λ m. Post-pure (n + m) (λ w p. p)))

  Post-update_scanned :
      (x : List Delivery × Option ℕ)
      → Post P (update_scanned pass x) (λ r w. P w × (r.1 ≡ x.1)) (λ _. P)
  Post-update_scanned (ds, failed) =
      Post-bind (Post-update_delivery_events ds) (λ n. Post-pure (n, failed) (λ w p. (p, refl)))

  -- A fetch of deliveries that returns has read the logs of the range, and returns its scan's failed
  -- block.
  pub Post-fetch_and_update_delivery_events :
      (at : Addresses) (from to : ℕ)
      → Post P
          (fetch_and_update_delivery_events pass at from to)
          (λ r w.
            P w
            × ((logs : _) × (pass.delivery_logs from to ≡ ok logs)
                × (r.1 ≡ (scan_deliveries pass at logs none).1)))
          (λ _. P)
  unfolding fetch_and_update_delivery_events
  Post-fetch_and_update_delivery_events at from to =
      Post-bind-lift (pass.delivery_logs from to) _
        (λ logs e.
          Post-weaken (Post-update_scanned (scan_deliveries pass at logs none)) (λ w p. p)
            (λ r w h. (h.0, (logs, e, h.1))) (λ _ w p. p))
        (λ e w p. p)
