-- ===== src/Market/Submitted.antt =====
-- src/api/mm_routes.py: what a submission of quotes leaves in `mm_quotes`.
use mathlib.Core.Path.{subst}
use options_protocol_backend.Prelude.{
  ℕ, ◌+◌, ◌<◌, true, Option, none, some, ◌≡◌, refl, sym, ap, inl, List, [], ◌∷◌, length, All,
  All-map, arith,
}
use options_protocol_backend.Prelude.Text.{Text, lower}
use options_protocol_backend.Exec.{Exn, Result, ok, err}
use options_protocol_backend.Exec.Post.{
  Post, Outcome, Post-pure, Post-raise, Post-if, Post-bind, Post-weaken, Post-given,
}
use options_protocol_backend.Bridge.{Chain, base, solana, arc}
use options_protocol_backend.Market.{Env, World, QuoteSubmission, QuoteRow, next_tick}
use options_protocol_backend.Market.Submit.{
  QuoteBatchResponse, is_mixed, masked_answer, resolve_nonce, write_if_any, submit_rows,
  submit_quotes,
}
use options_protocol_backend.Market.Rows.{Live}
use options_protocol_backend.Market.Checked.{FromBatch, Sorted, check_quotes-Sorted}
use options_protocol_backend.Market.Written.{On, KeptOrNew, Refreshed, Post-write_rows}

module _ (env : Env) (P : QuoteRow → Type 0) (mm_address : Text) (now : ℕ) (q : QuoteSubmission)
    (qs : List QuoteSubmission) where
  -- the identity and the nonce that the chain has for the maker
  abbrev pub MakerOf : Chain → Text → ℕ → Type 0
  MakerOf solana mm_id nonce =
      (t : ℕ) × (q.maker ≡ some mm_id) × (env.solana_nonce t mm_id ≡ ok nonce)
  MakerOf base mm_id nonce =
      (t : ℕ) × (mm_id ≡ lower mm_address) × (env.base_nonce t mm_address ≡ ok nonce)
  MakerOf arc mm_id nonce =
      (t : ℕ) × (mm_id ≡ lower mm_address) × (env.base_nonce t mm_address ≡ ok nonce)

  abbrev Resolved : Text × ℕ → World → Type 0
  Resolved (mm_id, nonce) w = MakerOf q.chain mm_id nonce × Live P w.quotes

  -- what a submission leaves that returns
  abbrev pub Submitted : QuoteBatchResponse → World → Type 0
  Submitted r w =
      (mm_id : Text) × (nonce : ℕ) × (rows : List QuoteRow) × MakerOf q.chain mm_id nonce
      × Sorted env q.chain mm_id nonce mm_address now (q ∷ qs) (r.errors, rows)
      × (r.accepted ≡ length rows)
      × (r.accepted + r.rejected ≡ length (q ∷ qs))
      × Refreshed env P mm_id q.chain now rows
          (FromBatch env q.chain mm_id nonce mm_address now (q ∷ qs)) w.quotes

  asked :
      {A : Type 0} (Q : A → World → Type 0) (e : Exn) (x : Result A) (w : World)
      → ((a : A) → x ≡ ok a → Q a (next_tick w))
      → Live P w.quotes
      → Outcome Q (λ _. On (Live P)) (masked_answer e x, next_tick w)
  asked Q e (ok a) w f h = f a refl
  asked Q e (err m) w f h = h

  Post-resolve_nonce :
      (chain : Chain) (maker : Option Text)
      → q.maker ≡ maker
      → Post
          (On (Live P))
          (resolve_nonce env chain maker mm_address)
          (λ r w. MakerOf chain r.0 r.1 × Live P w.quotes)
          (λ _. On (Live P))
  unfolding resolve_nonce
  Post-resolve_nonce solana none e = Post-raise _ (λ w h. h)
  Post-resolve_nonce solana (some []) e = Post-raise _ (λ w h. h)
  Post-resolve_nonce solana (some (c ∷ s)) e =
      Post-bind {I = λ nonce w. MakerOf solana (c ∷ s) nonce × Live P w.quotes}
        (record {
          at = λ w h.
              asked (λ nonce v. MakerOf solana (c ∷ s) nonce × Live P v.quotes) _
                (env.solana_nonce w.tick (c ∷ s)) w (λ nonce a. ((w.tick, e, a), h)) h;
        })
        (λ nonce. Post-pure (c ∷ s, nonce) (λ w h. h))
  Post-resolve_nonce base maker e =
      Post-bind {I = λ nonce w. MakerOf base (lower mm_address) nonce × Live P w.quotes}
        (record {
          at = λ w h.
              asked (λ nonce v. MakerOf base (lower mm_address) nonce × Live P v.quotes) _
                (env.base_nonce w.tick mm_address) w (λ nonce a. ((w.tick, refl, a), h)) h;
        })
        (λ nonce. Post-pure (lower mm_address, nonce) (λ w h. h))
  Post-resolve_nonce arc maker e =
      Post-bind {I = λ nonce w. MakerOf arc (lower mm_address) nonce × Live P w.quotes}
        (record {
          at = λ w h.
              asked (λ nonce v. MakerOf arc (lower mm_address) nonce × Live P v.quotes) _
                (env.base_nonce w.tick mm_address) w (λ nonce a. ((w.tick, refl, a), h)) h;
        })
        (λ nonce. Post-pure (lower mm_address, nonce) (λ w h. h))

  module _ (mm_id : Text) (nonce : ℕ) where
    abbrev New : QuoteRow → Type 0
    New = FromBatch env q.chain mm_id nonce mm_address now (q ∷ qs)

    New-timely : (r : QuoteRow) → New r → (r.is_active ≡ true) × (now < r.deadline)
    New-timely r (p, m, (early, same, signed), e) =
        (ap (λ x. x.is_active) e, subst (λ d. now < d) (sym (ap (λ x. x.deadline) e)) early)

    Post-write_if_any :
        (rows : List QuoteRow)
        → All New rows
        → Post
            (On (Live P))
            (write_if_any env mm_id q.chain now rows)
            (λ _. On (Refreshed env P mm_id q.chain now rows New))
            (λ _. On (Live P))
    Post-write_if_any [] new = Post-pure tt (λ w h. (
      All-map (λ r. r.is_active ≡ true → P r)
          (λ r. r.is_active ≡ true → KeptOrNew env P mm_id q.chain now [] New r)
          (λ r f t. inl (f t, (λ e. tt))) w.quotes h,
      tt,
    ))
    Post-write_if_any (r ∷ rs) new =
        Post-write_rows env P mm_id q.chain now (r ∷ rs) New New-timely new

    Post-submit_rows :
        (found : List Text × List QuoteRow)
        → Sorted env q.chain mm_id nonce mm_address now (q ∷ qs) found
        → Post
            (λ w. MakerOf q.chain mm_id nonce × Live P w.quotes)
            (submit_rows env q.chain mm_id now (length (q ∷ qs)) found)
            Submitted
            (λ _. On (Live P))
    Post-submit_rows (errors, rows) sorted =
        Post-given (λ w h. h.0)
          (λ maker.
            Post-bind {I = λ _. On (Refreshed env P mm_id q.chain now rows New)}
              (Post-weaken (Post-write_if_any rows sorted.0) (λ w h. h.1) (λ _ w h. h) (λ _ w h. h))
              (λ _.
                Post-pure _
                  (λ w h. (mm_id, nonce, rows, maker, sorted, refl, omega (arith, sorted.2), h))))

  Post-submit_quotes :
      Post (On (Live P)) (submit_quotes env mm_address now q qs) Submitted (λ _. On (Live P))
  unfolding submit_quotes
  Post-submit_quotes =
      Post-if (is_mixed q.chain qs) _ _ (λ e. Post-raise _ (λ w h. h))
        (λ e. Post-bind (Post-resolve_nonce q.chain q.maker refl) (λ r.
          Post-submit_rows r.0 r.1 _
            (check_quotes-Sorted env q.chain r.0 r.1 mm_address now 0 (q ∷ qs))))

  -- Whatever the chain and the database answer, and for every property P that the active quotes have
  -- before: a submission that returns has read the maker's nonce, and split the batch into errors and
  -- rows. The rows are those of the batch's quotes that are before their deadline, have that nonce,
  -- and are signed, on Base by the address of the request and on Solana by the maker that the quote
  -- itself names, all of them and no others. Afterwards an active quote is one of
  -- these rows, or it has P and is not the maker's for an oToken of these rows, and each of these
  -- rows that is not past its expiry is in the table. A submission that raises leaves no active
  -- quote that does not have P.
  pub submit_quotes-Submitted :
      (start : World)
      → Live P start.quotes
      → Outcome Submitted (λ _ v. Live P v.quotes) (submit_quotes env mm_address now q qs start)
  submit_quotes-Submitted start h = Post-submit_quotes.at start h
