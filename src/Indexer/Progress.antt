-- ===== src/Indexer/Progress.antt =====
-- The cursor of src/bots/event_indexer.py: where `index_once` and the subscription may move it.
use options_protocol_backend.Prelude.{
  ℕ, ◌+◌, ◌-◌, ◌≤◌, ◌≡◌, refl, ◌∙◌, Option, none, some, arith, leb, ltb,
}
use options_protocol_backend.Exec.{Exn}
use options_protocol_backend.Exec.Post.{
  Post, Post-pure, Post-if, Post-bind, Post-try_except, Post-weaken, Post-given, Outcome-always,
}
use options_protocol_backend.Indexer.{Indexer, Pass, Addresses}
use options_protocol_backend.Indexer.Keeps.{
  Stable, Post-fetch_and_store_order_events, Post-fetch_and_update_delivery_events,
}
use options_protocol_backend.Indexer.Cycle.{
  settle_cursor, set_last_indexed_block, to_block_of, forward_pass, rescan, rescan_pass, index_once,
  both_passes, get_last_indexed_block, first_failure, write_cursor, read_cursor,
}

module _ (pass : Pass) where
  Post-write_cursor :
      {P Q R : Indexer → Type 0} (b : ℕ) (o : Option Exn)
      → ((w : Indexer) → P w → Q (record w { last_indexed_block = b }))
      → ((w : Indexer) → P w → R w)
      → Post P (write_cursor pass b o) (λ _. Q) (λ _. R)
  Post-write_cursor b none q r = record { at = q }
  Post-write_cursor b (some e) q r = record { at = r }

  pub Post-set_last_indexed_block :
      {P Q R : Indexer → Type 0} (b : ℕ)
      → ((w : Indexer) → P w → Q (record w { last_indexed_block = b }))
      → ((w : Indexer) → P w → R w)
      → Post P (set_last_indexed_block pass b) (λ _. Q) (λ _. R)
  unfolding set_last_indexed_block
  Post-set_last_indexed_block b = Post-write_cursor b (pass.cursor_update b)

  Post-read_cursor :
      {P : Indexer → Type 0} (o : Option Exn)
      → Post P (read_cursor pass o) (λ last w. (last ≡ w.last_indexed_block) × P w) (λ _. P)
  Post-read_cursor none = record { at = λ w p. (refl, p) }
  Post-read_cursor (some e) = record { at = λ w p. p }

  pub Post-get_last_indexed_block :
      {P : Indexer → Type 0}
      → Post P
          (get_last_indexed_block pass)
          (λ last w. (last ≡ w.last_indexed_block) × P w)
          (λ _. P)
  unfolding get_last_indexed_block
  Post-get_last_indexed_block = Post-read_cursor pass.cursor_read

  -- Pass 2 keeps what the two fetches keep.
  pub Post-rescan_pass :
      (P : Indexer → Type 0)
      → Stable P
      → (at : Addresses) (from to : ℕ) → Post P (rescan_pass pass at from to) (λ _. P) (λ _. P)
  unfolding rescan_pass rescan
  Post-rescan_pass P stable at from to =
      Post-if (ltb from to) _ _
        (λ _.
          Post-try_except {E = λ _. P}
            (Post-bind
              (Post-weaken (Post-fetch_and_store_order_events pass P stable from to) (λ w p. p)
                (λ r w h. h.0) (λ _ w p. p))
              (λ r.
                Post-bind (Post-fetch_and_update_delivery_events pass P stable at from to)
                  (λ d. Post-pure tt (λ w p. p.0))))
            (λ e. Post-pure tt (λ w p. p)))
        (λ _. Post-pure tt (λ w p. p))

-- The cursor is at `last` or past it.
abbrev Reached : ℕ → Indexer → Type 0
Reached last w = last ≤ w.last_indexed_block

Reached-Stable : (last : ℕ) → Stable (Reached last)
Reached-Stable last = record { notice = λ w n p. p; growth = λ w rs g p. p }

module _ (pass : Pass) (last : ℕ) where
  Post-settle_cursor :
      (to : ℕ)
      → last ≤ to
      → (o : Option ℕ)
      → Post
          (Reached last)
          (settle_cursor pass (last + 1) to o)
          (λ _. Reached last)
          (λ _. Reached last)
  unfolding settle_cursor
  Post-settle_cursor to h none =
      Post-bind {I = λ _. Reached last} (Post-set_last_indexed_block pass to (λ w p. h) (λ w p. p))
        (λ _. record { at = λ w p. p })
  Post-settle_cursor to h (some f) =
      Post-bind {I = λ _. Reached last}
        (Post-if (leb f (last + 1)) _ _ (λ _. Post-pure tt (λ w p. p))
          (λ past.
            Post-set_last_indexed_block pass (f - 1) (λ w p. ground (arith, past)) (λ w p. p)))
        (λ _. record { at = λ w p. p })

  Post-forward_pass :
      (at : Addresses) (to : ℕ)
      → last ≤ to
      → Post
          (Reached last)
          (forward_pass pass at (last + 1) to)
          (λ _. Reached last)
          (λ _. Reached last)
  unfolding forward_pass
  Post-forward_pass at to h =
      Post-bind
        (Post-weaken
          (Post-fetch_and_store_order_events pass (Reached last) (Reached-Stable last) (last + 1)
            to)
          (λ w p. p) (λ r w h. h.0) (λ _ w p. p))
        (λ (stored, failed).
          Post-bind
            (Post-weaken
              (Post-fetch_and_update_delivery_events pass (Reached last) (Reached-Stable last) at
                (last + 1) to)
              (λ w p. p) (λ r w h. h.0) (λ _ w p. p))
            (λ (delivered, broken). Post-settle_cursor to h (first_failure failed broken)))

module _ (forward again : Pass) (at : Addresses) (last : ℕ) where
  Post-both_passes :
      (safe : ℕ)
      → Post
          (Reached last)
          (both_passes forward again at safe last)
          (λ _. Reached last)
          (λ _. Reached last)
  Post-both_passes safe =
      Post-bind
        (Post-if (leb (last + 1) safe) _ _
          (λ here.
            Post-forward_pass forward last at (to_block_of forward (last + 1) safe)
              (ground (arith, here)))
          (λ _. Post-pure tt (λ w p. p)))
        (λ _. Post-rescan_pass again (Reached last) (Reached-Stable last) at _ _)

-- Whatever the node and the database answer, a cycle never moves the cursor back.
pub index_once-Advances :
    (forward again : Pass) (at : Addresses) (current_block : ℕ) (w : Indexer)
    → w.last_indexed_block ≤ (index_once forward again at current_block w).1.last_indexed_block
unfolding index_once
index_once-Advances forward again at current_block w =
    Outcome-always (Reached w.last_indexed_block) (index_once forward again at current_block w) (
      Post.at
        (Post-bind {P = λ v. v.last_indexed_block ≡ w.last_indexed_block}
          (Post-weaken (Post-get_last_indexed_block forward) (λ v p. p) (λ _ v h. h)
            (λ _ v p. omega (arith, p)))
          (λ last.
            Post-given {F = last ≡ w.last_indexed_block} (λ v h. h.0 ∙ h.1)
              (λ e. rw e (
                Post-weaken (Post-both_passes forward again at w.last_indexed_block _)
                  (λ v h. omega (arith, h.1)) (λ _ v h. h) (λ _ v h. h)))))
        w refl)
