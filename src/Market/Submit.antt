-- ===== src/Market/Submit.antt =====
-- src/api/mm_routes.py: the submission of a batch of signed quotes.
use options_protocol_backend.Prelude.{
  ℕ, ◌+◌, ◌-◌, Bool, true, false, not, ◌&&◌, ◌||◌, Option, none, some, ◌⊎◌, inl, inr, List, [], ◌∷◌,
  ◌++◌, any, filter, length, leb, ltb, ◌==◌, if◌then◌else◌,
}
use options_protocol_backend.Prelude.Text.{Text, codes, text_eq, lower}
use options_protocol_backend.Prelude.Decimal.{str_nat}
use options_protocol_backend.Exec.{
  Exn, external, Result, ok, err, pure, raise, try_except, ◌>>=◌, ◌>>◌,
}
use options_protocol_backend.Bridge.{Chain, solana, chain_eq}
use options_protocol_backend.Bridge.Routes.{http_error}
use options_protocol_backend.Market.{
  Env, Action, QuoteSubmission, QuoteRow, on_quotes, ask, deactivate, column_lt,
}
use options_protocol_backend.Market.Verify.{verify_sig}

pub record QuoteBatchResponse : Type 0 where
  pub accepted : ℕ
  pub rejected : ℕ
  pub errors : List Text

-- the oToken's address in the row
abbrev pub otoken_addr : Chain → Text → Text
otoken_addr solana address = address
otoken_addr _ address = lower address

abbrev pub row_of : Chain → Text → QuoteSubmission → QuoteRow
row_of chain mm_id q = record {
  mm_address = mm_id;
  otoken_address = otoken_addr chain q.otoken_address;
  bid_price = q.bid_price;
  deadline = q.deadline;
  quote_id = q.quote_id;
  max_amount = q.max_amount;
  maker_nonce = q.maker_nonce;
  signature = q.signature;
  chain = chain;
  asset = q.asset;
  strike_price = q.strike_price;
  expiry = q.expiry;
  is_put = q.is_put;
  is_active = true;
}

abbrev pub same_key : QuoteRow → QuoteRow → Bool
same_key r s = text_eq r.mm_address s.mm_address && r.quote_id == s.quote_id

-- an insertion that replaces the row with its key
unfoldable pub put_row : QuoteRow → List QuoteRow → List QuoteRow
put_row r [] = r ∷ []
put_row r (x ∷ xs) = let rest = put_row r xs in if same_key r x then r ∷ xs else x ∷ rest

unfoldable pub put_rows : List QuoteRow → List QuoteRow → List QuoteRow
unfolding put_row
put_rows [] table = table
put_rows (r ∷ rs) table = put_rows rs (put_row r table)

-- PostgreSQL refuses an upsert that names a key twice.
unfoldable pub has_repeat : List QuoteRow → Bool
has_repeat [] = false
has_repeat (r ∷ rs) = let rest = has_repeat rs in any (same_key r) rs || rest

abbrev pub repeated_key : Bool → Option Exn → Option Exn
repeated_key true o = some (external (codes "cannot affect row a second time"))
repeated_key false o = o

-- an active row of the maker for one of the oTokens
unfoldable pub is_replaced : Text → List QuoteRow → QuoteRow → Bool
is_replaced mm_id rows r =
    text_eq r.mm_address mm_id
    && (r.is_active && any (λ s. text_eq s.otoken_address r.otoken_address) rows)

unfoldable pub is_stale : Text → Chain → ℕ → QuoteRow → Bool
is_stale mm_id chain now r =
    (text_eq r.mm_address mm_id && chain_eq r.chain chain)
    && (not r.is_active || (ltb r.deadline now || column_lt r.expiry now))

abbrev pub first_maker : List QuoteSubmission → Option Text
first_maker [] = none
first_maker (q ∷ qs) = q.maker

abbrev pub is_mixed : Chain → List QuoteSubmission → Bool
is_mixed chain qs = any (λ q. not (chain_eq q.chain chain)) qs

abbrev pub labelled : ℕ → Text → Text
labelled i message = codes "quote[" ++ (str_nat i ++ (codes "]: " ++ message))

abbrev pub collect : ℕ → Text ⊎ QuoteRow → List Text × List QuoteRow → List Text × List QuoteRow
collect i (inl message) (errors, rows) = (labelled i message ∷ errors, rows)
collect i (inr row) (errors, rows) = (errors, row ∷ rows)

abbrev pub masked_answer : {A : Type 0} → Exn → Result A → Result A
masked_answer e (ok a) = ok a
masked_answer e (err x) = err e

module _ (env : Env) where
  -- `_resolve_nonce`
  unfoldable pub resolve_nonce : Chain → Option Text → Text → Action (Text × ℕ)
  resolve_nonce solana (some (c ∷ s)) mm_address = do
    nonce ← ask (λ n.
        masked_answer (http_error 502 (codes "Could not read Solana makerNonce"))
          (env.solana_nonce n (c ∷ s)))
    pure (c ∷ s, nonce)
  resolve_nonce solana _ mm_address =
      raise (http_error 400 (codes "maker required for Solana quotes"))
  resolve_nonce _ maker mm_address = do
    nonce ← ask (λ n.
        masked_answer (http_error 502 (codes "Could not read on-chain makerNonce"))
          (env.base_nonce n mm_address))
    pure (lower mm_address, nonce)

  abbrev pub accept_or : Chain → Text → QuoteSubmission → Option Text → Text ⊎ QuoteRow
  accept_or chain mm_id q none = inr (row_of chain mm_id q)
  accept_or chain mm_id q (some message) = inl message

  -- one round of the loop
  unfoldable pub check_quote : Chain → Text → ℕ → Text → ℕ → QuoteSubmission → Text ⊎ QuoteRow
  unfolding verify_sig
  check_quote chain mm_id nonce mm_address now q =
      if leb q.deadline now
      then inl (codes "deadline " ++ (str_nat q.deadline ++ codes " already passed"))
      else if not (q.maker_nonce == nonce)
      then inl (
          codes "makerNonce mismatch (got "
          ++ (str_nat q.maker_nonce ++ (codes ", on-chain is " ++ (str_nat nonce ++ codes ")"))))
      else accept_or chain mm_id q (verify_sig env chain mm_address q)

  -- the loop: the errors, and the rows to write
  unfoldable pub check_quotes :
      Chain → Text → ℕ → Text → ℕ → ℕ → List QuoteSubmission → List Text × List QuoteRow
  unfolding check_quote
  check_quotes chain mm_id nonce mm_address now i [] = ([], [])
  check_quotes chain mm_id nonce mm_address now i (q ∷ qs) =
      collect i (check_quote chain mm_id nonce mm_address now q)
        (check_quotes chain mm_id nonce mm_address now (i + 1) qs)

  unfoldable pub deactivate_replaced : Text → List QuoteRow → Action Unit
  unfolding deactivate is_replaced
  deactivate_replaced mm_id rows w =
      on_quotes (env.database w.tick) (λ _. tt) (deactivate (is_replaced mm_id rows)) w

  unfoldable pub upsert_quotes : List QuoteRow → Action Unit
  unfolding put_rows has_repeat
  upsert_quotes rows w =
      on_quotes (repeated_key (has_repeat rows) (env.database w.tick)) (λ _. tt) (put_rows rows) w

  -- `_prune_stale_quotes_for_mm`
  unfoldable pub prune_stale_quotes_for_mm : Text → Chain → ℕ → Action Unit
  unfolding is_stale
  prune_stale_quotes_for_mm mm_id chain now w =
      on_quotes (env.database w.tick) (λ _. tt) (filter (λ r. not (is_stale mm_id chain now r))) w

  unfoldable pub write_rows : Text → Chain → ℕ → List QuoteRow → Action Unit
  unfolding deactivate_replaced upsert_quotes prune_stale_quotes_for_mm
  write_rows mm_id chain now rows = do
    try_except (do deactivate_replaced mm_id rows; upsert_quotes rows)
        (λ e. raise (http_error 502 (codes "Database write failed")))
    try_except (prune_stale_quotes_for_mm mm_id chain now) (λ e. pure tt)

  -- with no row to write, nothing is written
  abbrev pub write_if_any : Text → Chain → ℕ → List QuoteRow → Action Unit
  write_if_any mm_id chain now [] = pure tt
  write_if_any mm_id chain now (r ∷ rs) = write_rows mm_id chain now (r ∷ rs)

  abbrev pub submit_rows :
      Chain → Text → ℕ → ℕ → List Text × List QuoteRow → Action QuoteBatchResponse
  submit_rows chain mm_id now total (errors, rows) = do
    write_if_any mm_id chain now rows
    pure (record { accepted = length rows; rejected = total - length rows; errors = errors })

  abbrev pub submit_on : Chain → Text → ℕ → List QuoteSubmission → Action QuoteBatchResponse
  submit_on chain mm_address now quotes = do
    (mm_id, nonce) ← resolve_nonce chain (first_maker quotes) mm_address
    submit_rows chain mm_id now (length quotes)
        (check_quotes chain mm_id nonce mm_address now 0 quotes)

  -- `submit_quotes`: a batch has a first quote, and all its quotes are for one chain
  unfoldable pub submit_quotes :
      Text → ℕ → QuoteSubmission → List QuoteSubmission → Action QuoteBatchResponse
  unfolding resolve_nonce check_quotes write_rows
  submit_quotes mm_address now q qs =
      if is_mixed q.chain qs
      then raise (http_error 400 (codes "All quotes in a batch must target the same chain"))
      else submit_on q.chain mm_address now (q ∷ qs)
