-- ===== src/Indexer/Moves.antt =====
-- How far the forward pass of src/bots/event_indexer.py may move its cursor without losing an order.
use options_protocol_backend.Prelude.{
  ℕ, ◌+◌, ◌-◌, ◌≤◌, ◌<◌, min, true, false, ◌&&◌, ◌≡◌, sym, inl, inr, Option, none, some, List,
  filter, All, All-map, All-zip, arith, leb, leb→le, Bool-cases,
}
use options_protocol_backend.Exec.{ok}
use options_protocol_backend.Exec.Post.{Post, Post-pure, Post-if, Post-bind}
use options_protocol_backend.Indexer.{OrderLog, DeliveryLog, Row, Indexer, Pass}
use options_protocol_backend.Indexer.Keeps.{Grows, Stable}
use options_protocol_backend.Indexer.Scan.{is_in_range, HasRow, Below, Before, Handled}
use options_protocol_backend.Indexer.Cycle.{settle_cursor, first_failure}
use options_protocol_backend.Indexer.Progress.{Post-set_last_indexed_block}

-- The node's answers about orders are the logs of the chain in the range, in block order, and its
-- answers about deliveries stay in the range.
pub record Honest (history : List OrderLog) (pass : Pass) : Type 0 where
  pub orders :
      (from to : ℕ) (logs : List OrderLog)
      → pass.order_logs from to ≡ ok logs
      → logs ≡ filter (is_in_range from to) history
  pub deliveries :
      (from to : ℕ) (logs : List DeliveryLog)
      → pass.delivery_logs from to ≡ ok logs
      → All (λ l. l.block_number ≤ to) logs

-- Every order of the chain at or below the cursor has its row.
abbrev pub Covered : List OrderLog → Indexer → Type 0
Covered history w =
    All (λ l. l.block_number ≤ w.last_indexed_block → HasRow w.order_events l) history

Covered-Grows :
    (history : List OrderLog) (c : ℕ) (rs rs' : List Row)
    → Grows rs rs'
    → All (λ l. l.block_number ≤ c → HasRow rs l) history
    → All (λ l. l.block_number ≤ c → HasRow rs' l) history
Covered-Grows history c rs rs' g =
    All-map (λ l. l.block_number ≤ c → HasRow rs l) (λ l. l.block_number ≤ c → HasRow rs' l)
      (λ l h b. g l.transaction_hash (h b)) history

pub Covered-Stable : (history : List OrderLog) → Stable (Covered history)
Covered-Stable history = record {
  notice = λ w n h. h;
  growth = λ w rs g. Covered-Grows history w.last_indexed_block w.order_events rs g;
}

-- The cursor may move to `c`: it stays in the range that was fetched, and before a failed block.
abbrev MayMove : ℕ → ℕ → Option ℕ → Type 0
MayMove to c failed = (c ≤ to) × Before c failed

Handled-HasRow :
    (rs : List Row) (l : OrderLog) (o : Option ℕ) (c : ℕ)
    → Before c o
    → l.block_number ≤ c
    → Handled rs o l
    → HasRow rs l
Handled-HasRow rs l o c before h (inl here) = here
Handled-HasRow rs l none c before h (inr never) = absurd never
Handled-HasRow rs l (some f) c before h (inr halted) = absurd (omega (arith, before, halted, h))

in_next_range :
    (last to b c : ℕ) → leb b last ≡ false → b ≤ c → c ≤ to → (leb (last + 1) b && leb b to) ≡ true
in_next_range last to b c past h k = ground (arith, past, h, k)

module _ (history : List OrderLog) (last to : ℕ) where
  -- the state in which the forward pass settles the cursor
  abbrev pub Ready : Option ℕ → Indexer → Type 0
  Ready failed w =
      (w.last_indexed_block ≡ last)
      × Covered history w
      × All (λ l. is_in_range (last + 1) to l ≡ true → Handled w.order_events failed l) history

  moved_one :
      (rs : List Row) (o : Option ℕ) (c : ℕ)
      → MayMove to c o
      → (l : OrderLog)
      → (l.block_number ≤ last → HasRow rs l)
        × (is_in_range (last + 1) to l ≡ true → Handled rs o l)
      → l.block_number ≤ c
      → HasRow rs l
  moved_one rs o c (inside, before) l (old, new) h = elim (Bool-cases (leb l.block_number last)) [
    | inl seen ↦ old (leb→le l.block_number last seen)
    | inr past ↦
        Handled-HasRow rs l o c before h
          (new (in_next_range last to l.block_number c past h inside))
  ]

  moved :
      (w : Indexer) (o : Option ℕ) (c : ℕ)
      → MayMove to c o
      → Ready o w
      → Covered history (record w { last_indexed_block = c })
  moved w o c may (same, old, new) = All-map _ _ (moved_one w.order_events o c may) history (
      All-zip (λ l. l.block_number ≤ last → HasRow w.order_events l)
        (λ l. is_in_range (last + 1) to l ≡ true → Handled w.order_events o l) history
        (rw (sym same) old) new)

  Handled-Grows :
      (rs rs' : List Row) (o : Option ℕ) (l : OrderLog)
      → Grows rs rs'
      → Handled rs o l
      → Handled rs' o l
  Handled-Grows rs rs' o l g (inl here) = inl (g l.transaction_hash here)
  Handled-Grows rs rs' o l g (inr halted) = inr halted

  pub Ready-Stable : (o : Option ℕ) → Stable (Ready o)
  Ready-Stable o = record {
    notice = λ w n h. h;
    growth = λ w rs g h. (
      h.0,
      Covered-Grows history w.last_indexed_block w.order_events rs g h.1,
      All-map (λ l. is_in_range (last + 1) to l ≡ true → Handled w.order_events o l)
          (λ l. is_in_range (last + 1) to l ≡ true → Handled rs o l)
          (λ l k e. Handled-Grows w.order_events rs o l g (k e)) history h.2,
    );
  }

  Ready-Covered : (w : Indexer) (o : Option ℕ) → Ready o w → Covered history w
  Ready-Covered w o h = h.1

  module _ (pass : Pass) where
    Post-settle_failed :
        (o : Option ℕ) (f : ℕ)
        → ((c : ℕ) → c < f → MayMove to c o)
        → Post
            (Ready o)
            (settle_cursor pass (last + 1) to (some f))
            (λ _. Covered history)
            (λ _. Covered history)
    unfolding settle_cursor
    Post-settle_failed o f may =
        Post-bind {I = λ _. Covered history}
          (Post-if (leb f (last + 1)) _ _ (λ _. Post-pure tt (λ w h. h.1))
            (λ past.
              Post-set_last_indexed_block pass (f - 1)
                (λ w h. moved w o (f - 1) (may (f - 1) (ground (arith, past))) h) (λ w h. h.1)))
          (λ _. record { at = λ w h. h })

    pub Post-settle :
        (o d : Option ℕ)
        → Below to o
        → Below to d
        → Post
            (Ready o)
            (settle_cursor pass (last + 1) to (first_failure o d))
            (λ _. Covered history)
            (λ _. Covered history)
    unfolding settle_cursor
    Post-settle none none b b' =
        Post-bind {I = λ _. Covered history}
          (Post-set_last_indexed_block pass to (λ w h. moved w none to (omega arith, tt) h)
            (λ w h. h.1))
          (λ _. record { at = λ w h. h })
    Post-settle none (some g) b b' = Post-settle_failed none g (λ c h. (omega (arith, b', h), tt))
    Post-settle (some f) none b b' = Post-settle_failed (some f) f (λ c h. (omega (arith, b, h), h))
    Post-settle (some f) (some g) b b' =
        Post-settle_failed (some f) (min f g) (λ c h. (omega (arith, b, h), omega (arith, h)))
