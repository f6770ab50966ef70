-- ===== src/Market/Checked.antt =====
-- The loop of `submit_quotes` over a batch, against what makes a quote acceptable.
use options_protocol_backend.Prelude.{
  ℕ, ◌+◌, ◌<◌, true, false, Option, none, some, ◌≡◌, ◌≢◌, refl, sym, ap, ◌∙◌, ◌⊎◌, inl, inr, List,
  [], ◌∷◌, length, leb, ◌==◌, ==_iff, All, All-map, Elem, Bool-cases, arith,
}
use options_protocol_backend.Prelude.Text.{Text}
use options_protocol_backend.Bridge.{Chain}
use options_protocol_backend.Market.{Env, QuoteSubmission, QuoteRow}
use options_protocol_backend.Market.Verify.{verify_sig}
use options_protocol_backend.Market.Submit.{row_of, collect, accept_or, check_quote, check_quotes}
use options_protocol_backend.Market.Signed.{Signed, verify_sig-Signed, Signed-verify}

module _ (env : Env) (chain : Chain) (mm_id : Text) (nonce : ℕ) (mm : Text) (now : ℕ) where
  -- What makes a quote acceptable.
  abbrev pub Acceptable : QuoteSubmission → Type 0
  Acceptable q = (now < q.deadline) × (q.maker_nonce ≡ nonce) × Signed env chain mm q

  abbrev pub FromBatch : List QuoteSubmission → QuoteRow → Type 0
  FromBatch quotes r =
      (q : QuoteSubmission) × Elem q quotes × Acceptable q × (r ≡ row_of chain mm_id q)

  accept_or-Acceptable :
      (q : QuoteSubmission) (r : QuoteRow) (o : Option Text)
      → verify_sig env chain mm q ≡ o
      → accept_or env chain mm_id q o ≡ inr r
      → Signed env chain mm q × (r ≡ row_of chain mm_id q)
  accept_or-Acceptable q r none e h = (verify_sig-Signed env chain mm q e, cc)
  accept_or-Acceptable q r (some m) e h = cc

  -- past the first two tests
  check_quote-timely :
      (q : QuoteSubmission)
      → leb q.deadline now ≡ false
      → (q.maker_nonce == nonce) ≡ true
      → check_quote env chain mm_id nonce mm now q
        ≡ accept_or env chain mm_id q (verify_sig env chain mm q)
  unfolding check_quote
  check_quote-timely q early same = rw (early, same)

  refused-late :
      (q : QuoteSubmission) (r : QuoteRow)
      → leb q.deadline now ≡ true
      → check_quote env chain mm_id nonce mm now q ≢ inr r
  unfolding check_quote
  refused-late q r late h = ground (arith, h, late)

  refused-nonce :
      (q : QuoteSubmission) (r : QuoteRow)
      → leb q.deadline now ≡ false
      → (q.maker_nonce == nonce) ≡ false
      → check_quote env chain mm_id nonce mm now q ≢ inr r
  unfolding check_quote
  refused-nonce q r early other h = ground (arith, h, early, other)

  check_quote-Acceptable :
      (q : QuoteSubmission) (r : QuoteRow)
      → check_quote env chain mm_id nonce mm now q ≡ inr r
      → Acceptable q × (r ≡ row_of chain mm_id q)
  check_quote-Acceptable q r h = elim (Bool-cases (leb q.deadline now)) [
    | inl late ↦ absurd (refused-late q r late h)
    | inr early ↦ elim (Bool-cases (q.maker_nonce == nonce)) [
      | inl same ↦
          let (signed, e) =
            accept_or-Acceptable q r (verify_sig env chain mm q) refl
              (sym (check_quote-timely q early same) ∙ h) in
          ((ground (arith, early), (==_iff q.maker_nonce nonce).0 same, signed), e)
      | inr other ↦ absurd (refused-nonce q r early other h)
    ]
  ]

  Acceptable-check_quote :
      (q : QuoteSubmission)
      → Acceptable q
      → check_quote env chain mm_id nonce mm now q ≡ inr (row_of chain mm_id q)
  Acceptable-check_quote q (early, same, signed) =
      check_quote-timely q (ground (arith, early)) ((==_iff q.maker_nonce nonce).1 same)
      ∙ ap (accept_or env chain mm_id q) (Signed-verify env chain mm q signed)

  -- The rows of a batch: each is that of an acceptable quote of the batch, each acceptable quote has
  -- its row, and every other quote has an error.
  abbrev pub Sorted : List QuoteSubmission → List Text × List QuoteRow → Type 0
  Sorted quotes (errors, rows) =
      All (FromBatch quotes) rows
      × All (λ q. Acceptable q → Elem (row_of chain mm_id q) rows) quotes
      × (length errors + length rows ≡ length quotes)

  FromBatch-later :
      (q : QuoteSubmission) (qs : List QuoteSubmission) (r : QuoteRow)
      → FromBatch qs r
      → FromBatch (q ∷ qs) r
  FromBatch-later q qs r (p, m, a, e) = (p, inr m, a, e)

  collect-Sorted :
      (i : ℕ) (q : QuoteSubmission) (qs : List QuoteSubmission) (c : Text ⊎ QuoteRow)
      (found : List Text × List QuoteRow)
      → check_quote env chain mm_id nonce mm now q ≡ c
      → Sorted qs found
      → Sorted (q ∷ qs) (collect i c found)
  collect-Sorted i q qs (inl message) (errors, rows) e (from, complete, count) = (
    All-map (FromBatch qs) (FromBatch (q ∷ qs)) (FromBatch-later q qs) rows from,
    ((λ a. cc (Acceptable-check_quote q a)), complete),
    omega (arith, count),
  )
  collect-Sorted i q qs (inr r) (errors, rows) e (from, complete, count) =
      let (a, er) = check_quote-Acceptable q r e in
      (
        (
          (q, inl refl, a, er),
          All-map (FromBatch qs) (FromBatch (q ∷ qs)) (FromBatch-later q qs) rows from,
        ),
        (
          (λ a. inl (sym er)),
          All-map (λ p. Acceptable p → Elem (row_of chain mm_id p) rows)
              (λ p. Acceptable p → Elem (row_of chain mm_id p) (r ∷ rows)) (λ p f a. inr (f a)) qs
              complete,
        ),
        omega (arith, count),
      )

  pub check_quotes-Sorted :
      (i : ℕ) (quotes : List QuoteSubmission)
      → Sorted quotes (check_quotes env chain mm_id nonce mm now i quotes)
  unfolding check_quotes
  check_quotes-Sorted i [] = (tt, tt, omega arith)
  check_quotes-Sorted i (q ∷ qs) =
      collect-Sorted i q qs (check_quote env chain mm_id nonce mm now q)
        (check_quotes env chain mm_id nonce mm now (i + 1) qs) refl (check_quotes-Sorted (i + 1) qs)
