-- ===== src/Indexer/Scan.antt =====
-- The scans of src/bots/event_indexer.py: which logs they keep, and the failed block they return.
use options_protocol_backend.Prelude.{
  ℕ, ◌≤◌, ◌<◌, min, Bool, true, ◌&&◌, ◌≡◌, refl, ◌⊎◌, inl, inr, Option, none, some, List, [], ◌∷◌,
  filter, All, All-map, arith, leb, Option-cases, Bool-cases,
}
use options_protocol_backend.Indexer.{
  OrderLog, DeliveryLog, Metadata, Row, keep_event, Pass, Addresses,
}
use options_protocol_backend.Indexer.Events.{
  has_row, scan_orders, build_order_event_data, enrich_with_otoken_metadata,
}
use options_protocol_backend.Indexer.Deliveries.{build_delivery_event_data, scan_deliveries}

-- The logs stand in block order, from block `lo` on.
abbrev pub Sorted : ℕ → List OrderLog → Type 0
Sorted lo [] = Unit
Sorted lo (l ∷ ls) = (lo ≤ l.block_number) × Sorted l.block_number ls

abbrev pub is_in_range : ℕ → ℕ → OrderLog → Bool
is_in_range from to l = leb from l.block_number && leb l.block_number to

-- The row of the log is there.
abbrev pub HasRow : List Row → OrderLog → Type 0
HasRow rs l = has_row l.transaction_hash rs ≡ true

-- a failed block is on record, at `b` or below it
abbrev pub HaltsAt : ℕ → Option ℕ → Type 0
HaltsAt b none = ⊥
HaltsAt b (some f) = f ≤ b

-- the failed block, if any, is at most `to`
abbrev pub Below : ℕ → Option ℕ → Type 0
Below to none = Unit
Below to (some f) = f ≤ to

-- the failed block, if any, is past `c`
abbrev pub Before : ℕ → Option ℕ → Type 0
Before c none = Unit
Before c (some f) = c < f

Sorted-lower : (lo lo' : ℕ) (ls : List OrderLog) → lo ≤ lo' → Sorted lo' ls → Sorted lo ls
Sorted-lower lo lo' [] h s = tt
Sorted-lower lo lo' (l ∷ ls) h (here, s) = (omega (arith, h, here), s)

pub Sorted-filter :
    (q : OrderLog → Bool) (lo : ℕ) (ls : List OrderLog) → Sorted lo ls → Sorted lo (filter q ls)
Sorted-filter q lo [] s = tt
Sorted-filter q lo (l ∷ ls) (here, s) = elim (Bool-cases (q l)) [
  | inl kept ↦ rw kept (here, Sorted-filter q l.block_number ls s)
  | inr dropped ↦
      rw dropped
        (Sorted-lower lo l.block_number (filter q ls) here (Sorted-filter q l.block_number ls s))
]

abbrev pub Handled : List Row → Option ℕ → OrderLog → Type 0
Handled rs failed l = HasRow rs l ⊎ HaltsAt l.block_number failed

keep_event-Below :
    {E : Type 0} (to block : ℕ) (o : Option E) (failed : Option ℕ)
    (rest : Option ℕ → List E × Option ℕ)
    → block ≤ to
    → ((f : Option ℕ) → Below to f → Below to (rest f).1)
    → Below to failed
    → Below to (keep_event o failed block rest).1
keep_event-Below to block none none rest h ih b = ih (some block) h
keep_event-Below to block none (some f) rest h ih b = ih (some (min block f)) (omega (arith, h))
keep_event-Below to block (some e) none rest h ih b = ih none tt
keep_event-Below to block (some e) (some f) rest h ih b = ih (some f) b

halts : (o : Option ℕ) (f b : ℕ) → o ≡ some f → f ≤ b → HaltsAt b o
halts o f b e h = rw e h

module _ (pass : Pass) where
  -- After a failure at `f`, nothing changes the failed block, and the logs that follow are at `f` or
  -- past it.
  scan_orders-halted :
      (f lo : ℕ) (ls : List OrderLog)
      → f ≤ lo
      → Sorted lo ls
      → ((scan_orders pass ls (some f)).1 ≡ some f) × All (λ l. f ≤ l.block_number) ls
  unfolding scan_orders
  scan_orders-halted f lo [] h s = (refl, tt)
  scan_orders-halted f lo (l ∷ ls) h (here, s) =
      let rest = scan_orders-halted f l.block_number ls (omega (arith, h, here)) s in
      elim (Option-cases (pass.order_metadata l)) [
        | inl missing ↦
            let same : min l.block_number f ≡ f = omega (arith, h, here) in
            rw (missing, same) (rest.0, (omega (arith, h, here), rest.1))
        | inr (m, found) ↦ rw found (rest.0, (omega (arith, h, here), rest.1))
      ]

  keep_event-Handled :
      (rs : List Row) (l : OrderLog) (ls : List OrderLog) (m : Option Metadata)
      → ((scan_orders pass ls (some l.block_number)).1 ≡ some l.block_number)
        × All (λ x. l.block_number ≤ x.block_number) ls
      → (All (λ e. has_row e.tx_hash rs ≡ true) (scan_orders pass ls none).0
          → All (Handled rs (scan_orders pass ls none).1) ls)
      → All
          (λ e. has_row e.tx_hash rs ≡ true)
          (keep_event
            (enrich_with_otoken_metadata (build_order_event_data l) m)
            none
            l.block_number
            (λ f. scan_orders pass ls f)).0
      → All
          (Handled rs
            (keep_event
              (enrich_with_otoken_metadata (build_order_event_data l) m)
              none
              l.block_number
              (λ f. scan_orders pass ls f)).1)
          (l ∷ ls)
  unfolding build_order_event_data
  keep_event-Handled rs l ls none (halted, after) ih h = (
    inr (halts _ l.block_number l.block_number halted (omega arith)),
    All-map (λ x. l.block_number ≤ x.block_number)
        (Handled rs (scan_orders pass ls (some l.block_number)).1)
        (λ x b. inr (halts _ l.block_number x.block_number halted b)) ls after,
  )
  keep_event-Handled rs l ls (some m) halted ih (here, rest) = (inl here, ih rest)

  -- Each log of the scan is stored, or the scan has failed at its block or before.
  pub scan_orders-covers :
      (rs : List Row) (lo : ℕ) (ls : List OrderLog)
      → Sorted lo ls
      → All (λ e. has_row e.tx_hash rs ≡ true) (scan_orders pass ls none).0
      → All (Handled rs (scan_orders pass ls none).1) ls
  unfolding scan_orders
  scan_orders-covers rs lo [] s h = tt
  scan_orders-covers rs lo (l ∷ ls) (here, s) h =
      keep_event-Handled rs l ls (pass.order_metadata l)
        (scan_orders-halted l.block_number l.block_number ls (omega arith) s)
        (scan_orders-covers rs l.block_number ls s) h

  pub scan_orders-Below :
      (to : ℕ) (ls : List OrderLog)
      → All (λ l. l.block_number ≤ to) ls
      → (failed : Option ℕ) → Below to failed
      → Below to (scan_orders pass ls failed).1
  unfolding scan_orders
  scan_orders-Below to [] h failed b = b
  scan_orders-Below to (l ∷ ls) (here, h) failed b =
      keep_event-Below to l.block_number
        (enrich_with_otoken_metadata (build_order_event_data l) (pass.order_metadata l)) failed
        (λ f. scan_orders pass ls f) here (scan_orders-Below to ls h) b

  pub scan_deliveries-Below :
      (to : ℕ) (at : Addresses) (ls : List DeliveryLog)
      → All (λ l. l.block_number ≤ to) ls
      → (failed : Option ℕ) → Below to failed
      → Below to (scan_deliveries pass at ls failed).1
  unfolding scan_deliveries
  scan_deliveries-Below to at [] h failed b = b
  scan_deliveries-Below to at (l ∷ ls) (here, h) failed b =
      keep_event-Below to l.block_number (build_delivery_event_data at l (pass.delivery_metadata l))
        failed (λ f. scan_deliveries pass at ls f) here (scan_deliveries-Below to at ls h) b
