-- ===== src/Indexer/Coverage.antt =====
-- Which orders of the chain have their row in `order_events` after a cycle of
-- src/bots/event_indexer.py.
use mathlib.Core.Path.{subst}
use options_protocol_backend.Prelude.{
  ℕ, ◌+◌, ◌≤◌, true, ◌&&◌, ◌≡◌, refl, sym, ◌∙◌, inl, inr, Option, none, List, [], ◌∷◌, filter, All,
  All-filter, arith, leb, Bool-cases,
}
use options_protocol_backend.Exec.{ok}
use options_protocol_backend.Exec.Post.{
  Post, Post-pure, Post-if, Post-bind, Post-weaken, Post-given, Outcome-always,
}
use options_protocol_backend.Indexer.{OrderLog, Indexer, Pass, Addresses}
use options_protocol_backend.Indexer.Events.{scan_orders}
use options_protocol_backend.Indexer.Deliveries.{fetch_and_update_delivery_events}
use options_protocol_backend.Indexer.Keeps.{
  Stored, Stable, Post-fetch_and_store_order_events, Post-fetch_and_update_delivery_events,
}
use options_protocol_backend.Indexer.Scan.{
  Sorted, is_in_range, Below, Handled, Sorted-filter, scan_orders-covers, scan_orders-Below,
  scan_deliveries-Below,
}
use options_protocol_backend.Indexer.Cycle.{
  settle_cursor, first_failure, to_block_of, forward_pass, both_passes, index_once,
}
use options_protocol_backend.Indexer.Progress.{Post-get_last_indexed_block, Post-rescan_pass}
use options_protocol_backend.Indexer.Moves.{
  Honest, Covered, Covered-Stable, Ready, Ready-Stable, Post-settle,
}

in_range_Below :
    (from to : ℕ) (history : List OrderLog)
    → All (λ l. l.block_number ≤ to) (filter (is_in_range from to) history)
in_range_Below from to [] = tt
in_range_Below from to (l ∷ ls) = elim (Bool-cases (is_in_range from to l)) [
  | inl kept ↦ rw kept (upper from to l.block_number kept, in_range_Below from to ls)
  | inr dropped ↦ rw dropped (in_range_Below from to ls)
]
  where
    upper : (from to b : ℕ) → (leb from b && leb b to) ≡ true → b ≤ to
    upper from to b h = ground (arith, h)

module _ (history : List OrderLog) (sorted : Sorted 0 history) (pass : Pass)
    (honest : Honest history pass) (at : Addresses) (last to : ℕ) where
  -- what a fetch of orders has read and stored
  abbrev Fetched : Option ℕ → Indexer → Type 0
  Fetched r w =
      (logs : List OrderLog) × (pass.order_logs (last + 1) to ≡ ok logs)
      × Stored (scan_orders pass logs none).0 w
      × (r ≡ (scan_orders pass logs none).1)

  abbrev Unmoved : Indexer → Type 0
  Unmoved w = (w.last_indexed_block ≡ last) × Covered history w

  Unmoved-Stable : Stable Unmoved
  Unmoved-Stable = record {
    notice = λ w n h. h;
    growth = λ w rs g h. (h.0, (Covered-Stable history).growth w rs g h.1);
  }

  Fetched-Below : (r : Option ℕ) (w : Indexer) → Fetched r w → Below to r
  Fetched-Below r w (logs, read, stored, same) =
      rw (same, honest.orders (last + 1) to logs read)
        (scan_orders-Below pass to (filter (is_in_range (last + 1) to) history)
          (in_range_Below (last + 1) to history) none tt)

  Fetched-Ready : (r : Option ℕ) (w : Indexer) → Unmoved w → Fetched r w → Ready history last to r w
  Fetched-Ready r w (here, old) (logs, read, stored, same) = (
    here,
    old,
    All-filter (Handled w.order_events r) (is_in_range (last + 1) to) history (
        subst (All (Handled w.order_events r)) (honest.orders (last + 1) to logs read) (
          rw same (
            scan_orders-covers pass w.order_events 0 logs
              (subst (Sorted 0) (sym (honest.orders (last + 1) to logs read))
                (Sorted-filter (is_in_range (last + 1) to) 0 history sorted))
              stored))),
  )

  Post-fetch_deliveries :
      (o : Option ℕ)
      → Post
          (Ready history last to o)
          (fetch_and_update_delivery_events pass at (last + 1) to)
          (λ r w. Ready history last to o w × Below to r.1)
          (λ _. Covered history)
  Post-fetch_deliveries o =
      Post-weaken
        (Post-fetch_and_update_delivery_events pass (Ready history last to o)
          (Ready-Stable history last to o) at (last + 1) to)
        (λ w h. h)
        (λ r w (h, (logs, read, same)). (
          h,
          rw same (
              scan_deliveries-Below pass to at logs (honest.deliveries (last + 1) to logs read) none
                tt),
        ))
        (λ _ w h. h.1)

  Post-settle_both :
      (o : Option ℕ)
      → Below to o
      → (x : ℕ × Option ℕ)
      → Post
          (λ w. Ready history last to o w × Below to x.1)
          (settle_cursor pass (last + 1) to (first_failure o x.1))
          (λ _. Covered history)
          (λ _. Covered history)
  Post-settle_both o b (n, d) =
      Post-given {F = Below to d} (λ w h. h.1)
        (λ b'.
          Post-weaken (Post-settle history last to pass o d b b') (λ w h. h.0) (λ _ w h. h)
            (λ _ w h. h))

  pub Post-forward_pass :
      Post Unmoved
        (forward_pass pass at (last + 1) to)
        (λ _. Covered history)
        (λ _. Covered history)
  unfolding forward_pass
  Post-forward_pass =
      Post-bind {I = λ r w. Ready history last to r.1 w × Below to r.1}
        (Post-weaken (Post-fetch_and_store_order_events pass Unmoved Unmoved-Stable (last + 1) to)
          (λ w h. h) (λ r w h. (Fetched-Ready r.1 w h.0 h.1, Fetched-Below r.1 w h.1))
          (λ _ w h. h.1))
        (λ (stored, o).
          Post-given {F = Below to o} (λ w h. h.1)
            (λ b.
              Post-bind
                (Post-weaken (Post-fetch_deliveries o) (λ w h. h.0) (λ r w h. h) (λ _ w h. h))
                (λ (delivered, d). Post-settle_both o b (delivered, d))))

module _ (history : List OrderLog) (sorted : Sorted 0 history) (forward again : Pass)
    (honest : Honest history forward) (at : Addresses) where
  Post-both_passes :
      (safe last : ℕ)
      → Post
          (λ w. (w.last_indexed_block ≡ last) × Covered history w)
          (both_passes forward again at safe last)
          (λ _. Covered history)
          (λ _. Covered history)
  Post-both_passes safe last =
      Post-bind
        (Post-if (leb (last + 1) safe) _ _
          (λ here.
            Post-forward_pass history sorted forward honest at last
              (to_block_of forward (last + 1) safe))
          (λ _. Post-pure tt (λ w h. h.1)))
        (λ _. Post-rescan_pass again (Covered history) (Covered-Stable history) at _ _)

  -- While the node answers the forward pass from the chain's logs, in block order, a cycle keeps the
  -- invariant that every order of the chain at or below the cursor has its row, whatever fails:
  -- calls to the node, the lookup of metadata, writes to the database, or the second pass.
  pub index_once-Covered :
      (current_block : ℕ) (w : Indexer)
      → Covered history w
      → Covered history (index_once forward again at current_block w).1
  unfolding index_once
  index_once-Covered current_block w covered =
      Outcome-always (Covered history) (index_once forward again at current_block w) (
        Post.at
          (Post-bind {P = λ v. (v.last_indexed_block ≡ w.last_indexed_block) × Covered history v}
            (Post-weaken (Post-get_last_indexed_block forward) (λ v p. p) (λ _ v h. h)
              (λ _ v h. h.1))
            (λ last.
              Post-given {F = last ≡ w.last_indexed_block} (λ v h. h.0 ∙ h.1.0)
                (λ e. rw e (
                  Post-weaken (Post-both_passes _ w.last_indexed_block) (λ v h. (h.1.0, h.1.1))
                    (λ _ v h. h) (λ _ v h. h)))))
          w (refl, covered))
