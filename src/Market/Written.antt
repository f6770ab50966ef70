-- ===== src/Market/Written.antt =====
-- src/api/mm_routes.py: the writes of a submission, one after the other.
use options_protocol_backend.Prelude.{
  ℕ, ◌+◌, ◌<◌, Bool, true, false, not, Option, none, some, ◌≡◌, refl, ◌⊎◌, inl, inr, List, [], ◌∷◌,
  All, All-map, Elem, arith, filter,
}
use options_protocol_backend.Prelude.Text.{Text}
use options_protocol_backend.Exec.{Exn}
use options_protocol_backend.Exec.Post.{
  Post, Outcome, Post-pure, Post-raise, Post-bind, Post-try_except, Post-weaken,
}
use options_protocol_backend.Bridge.{Chain}
use options_protocol_backend.Market.{
  Env, World, QuoteRow, on_quotes, next_tick, deactivate, column_lt,
}
use options_protocol_backend.Market.Submit.{
  put_rows, has_repeat, repeated_key, is_replaced, is_stale, deactivate_replaced, upsert_quotes,
  prune_stale_quotes_for_mm, write_rows,
}
use options_protocol_backend.Market.Rows.{
  Live, Live-deactivate, Live-filter, Live-put_rows, put_rows-All, Elem-filter, Untouched,
  is_replaced-Untouched,
}

abbrev pub On : (List QuoteRow → Type 0) → World → Type 0
On P w = P w.quotes

pub on_quotes-Outcome :
    {A : Type 0} (Q : A → World → Type 0) (R : World → Type 0) (o : Option Exn)
    (q : List QuoteRow → A) (f : List QuoteRow → List QuoteRow) (w : World)
    → Q (q w.quotes) (record w { quotes = f w.quotes; tick = w.tick + 1 })
    → R (next_tick w)
    → Outcome Q (λ _. R) (on_quotes o q f w)
on_quotes-Outcome Q R none q f w h r = h
on_quotes-Outcome Q R (some e) q f w h r = r

-- Active rows of `P` stay, but for those of the maker for the oTokens of the new rows.
abbrev pub Kept : (QuoteRow → Type 0) → Text → List QuoteRow → QuoteRow → Type 0
Kept P mm_id rows r = P r × Untouched mm_id rows r

module _ (env : Env) (P : QuoteRow → Type 0) (mm_id : Text) (chain : Chain) (now : ℕ)
    (rows : List QuoteRow) (New : QuoteRow → Type 0) where
  abbrev pub KeptOrNew : QuoteRow → Type 0
  KeptOrNew r = Kept P mm_id rows r ⊎ New r

  -- a row that is not past its expiry is in the table
  abbrev pub Posted : List QuoteRow → List QuoteRow → Type 0
  Posted fresh table = All (λ r. column_lt r.expiry now ≡ false → Elem r table) fresh

  Live-replaced :
      (table : List QuoteRow)
      → Live P table
      → Live (Kept P mm_id rows) (deactivate (is_replaced mm_id rows) table)
  Live-replaced table h =
      All-map (λ r. r.is_active ≡ true → P r × (is_replaced mm_id rows r ≡ false))
        (λ r. r.is_active ≡ true → Kept P mm_id rows r)
        (λ r f t. ((f t).0, is_replaced-Untouched mm_id rows r t (f t).1))
        (deactivate (is_replaced mm_id rows) table)
        (Live-deactivate P (is_replaced mm_id rows) table h)

  Post-deactivate_replaced :
      Post
        (On (Live P))
        (deactivate_replaced env mm_id rows)
        (λ _. On (Live (Kept P mm_id rows)))
        (λ _. On (Live P))
  unfolding deactivate_replaced
  Post-deactivate_replaced = record {
    at = λ w h.
        on_quotes-Outcome (λ _. On (Live (Kept P mm_id rows))) (On (Live P)) (env.database w.tick)
          (λ _. tt) (deactivate (is_replaced mm_id rows)) w (Live-replaced w.quotes h) h;
  }

  -- after the upsert
  abbrev Written : List QuoteRow → Type 0
  Written table = Live KeptOrNew table × All (λ r. Elem r table) rows

  put_rows-Written :
      (table : List QuoteRow)
      → has_repeat rows ≡ false
      → All New rows
      → Live (Kept P mm_id rows) table
      → Written (put_rows rows table)
  put_rows-Written table once new h = (
    Live-put_rows KeptOrNew rows table (All-map New KeptOrNew (λ r n. inr n) rows new) (
        All-map (λ r. r.is_active ≡ true → Kept P mm_id rows r)
          (λ r. r.is_active ≡ true → KeptOrNew r) (λ r f t. inl (f t)) table h),
    put_rows-All rows table once,
  )

  upserted :
      (b : Bool) (o : Option Exn) (w : World)
      → has_repeat rows ≡ b
      → All New rows
      → Live (Kept P mm_id rows) w.quotes
      → Outcome
          (λ _. On Written)
          (λ _. On (Live (Kept P mm_id rows)))
          (on_quotes (repeated_key b o) (λ _. tt) (put_rows rows) w)
  upserted true o w e new h = h
  upserted false o w e new h =
      on_quotes-Outcome (λ _. On Written) (On (Live (Kept P mm_id rows))) o (λ _. tt)
        (put_rows rows) w (put_rows-Written w.quotes e new h) h

  Post-upsert :
      All New rows
      → Post
          (On (Live (Kept P mm_id rows)))
          (upsert_quotes env rows)
          (λ _. On Written)
          (λ _. On (Live (Kept P mm_id rows)))
  unfolding upsert_quotes
  Post-upsert new = record {
    at = λ w h. upserted (has_repeat rows) (env.database w.tick) w refl new h;
  }

  abbrev pub Refreshed : List QuoteRow → Type 0
  Refreshed table = Live KeptOrNew table × Posted rows table

  abbrev Timely : Type 0
  Timely = (r : QuoteRow) → New r → (r.is_active ≡ true) × (now < r.deadline)

  fresh-is_stale :
      Timely
      → (r : QuoteRow) → New r
      → column_lt r.expiry now ≡ false
      → not (is_stale mm_id chain now r) ≡ true
  unfolding is_stale
  fresh-is_stale timely r new e =
      let (active, early) = timely r new in ground (arith, active, early, e)

  pruned :
      (table : List QuoteRow)
      → Timely
      → (rs : List QuoteRow) → All New rs
      → All (λ r. Elem r table) rs
      → Posted rs (filter (λ r. not (is_stale mm_id chain now r)) table)
  pruned table timely [] new m = tt
  pruned table timely (r ∷ rs) (n, new) (m, ms) = (
    (λ e.
        Elem-filter (λ x. not (is_stale mm_id chain now x)) r table (fresh-is_stale timely r n e)
          m),
    pruned table timely rs new ms,
  )

  Post-prune :
      Timely
      → All New rows
      → Post
          (On Written)
          (prune_stale_quotes_for_mm env mm_id chain now)
          (λ _. On Refreshed)
          (λ _. On Written)
  unfolding prune_stale_quotes_for_mm
  Post-prune timely new = record {
    at = λ w h.
        on_quotes-Outcome (λ _. On Refreshed) (On Written) (env.database w.tick) (λ _. tt)
          (filter (λ r. not (is_stale mm_id chain now r))) w
          (
            Live-filter KeptOrNew (λ r. not (is_stale mm_id chain now r)) w.quotes h.0,
            pruned w.quotes timely rows new h.1,
          )
          h;
  }

  Written-Refreshed : (table : List QuoteRow) → Written table → Refreshed table
  Written-Refreshed table h = (
    h.0,
    All-map (λ r. Elem r table) (λ r. column_lt r.expiry now ≡ false → Elem r table) (λ r m e. m)
        rows h.1,
  )

  Kept-Live : (table : List QuoteRow) → Live (Kept P mm_id rows) table → Live P table
  Kept-Live table h =
      All-map (λ r. r.is_active ≡ true → Kept P mm_id rows r) (λ r. r.is_active ≡ true → P r)
        (λ r f t. (f t).0) table h

  pub Post-write_rows :
      Timely
      → All New rows
      → Post
          (On (Live P))
          (write_rows env mm_id chain now rows)
          (λ _. On Refreshed)
          (λ _. On (Live P))
  unfolding write_rows
  Post-write_rows timely new =
      Post-bind {I = λ _. On Written}
        (Post-try_except {E = λ _. On (Live P)}
          (Post-bind {I = λ _. On (Live (Kept P mm_id rows))} Post-deactivate_replaced (λ _.
            Post-weaken (Post-upsert new) (λ w h. h) (λ _ w h. h) (λ _ w h. Kept-Live w.quotes h)))
          (λ e. Post-raise _ (λ w h. h)))
        (λ _.
          Post-try_except (Post-prune timely new)
            (λ e. Post-pure tt (λ w h. Written-Refreshed w.quotes h)))
