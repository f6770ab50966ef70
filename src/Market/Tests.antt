-- ===== src/Market/Tests.antt =====
-- The market makers' quotes at concrete inputs.
use options_protocol_backend.Prelude.{
  ◌==◌, true, false, none, some, ◌≡◌, refl, [], ◌∷◌, if◌then◌else◌,
}
use options_protocol_backend.Prelude.Text.{Text, codes, text_eq, starts_with, lower}
use options_protocol_backend.Exec.{external, ok, err, ◌>>=◌}
use options_protocol_backend.Exec.Post.{Outcome}
use options_protocol_backend.Bridge.{base}
use options_protocol_backend.Market.{Env, World, QuoteSubmission, QuoteRow}
use options_protocol_backend.Market.Submit.{row_of, submit_quotes}
use options_protocol_backend.Market.Rows.{Live}
use options_protocol_backend.Market.Submitted.{Submitted, submit_quotes-Submitted}
use options_protocol_backend.Market.Halt.{invalidate_quotes, cancel_quotes}
use options_protocol_backend.Market.Halted.{Safe, Raised, invalidate_quotes-Safe}
use options_protocol_backend.Market.Serve.{served_quotes}
use options_protocol_backend.Market.Served.{ServesBest, served_quotes-ServesBest}

-- The maker 0xaa has the nonce 1, and signs all but the quote 9.
abbrev env : Env
env = record {
  database = λ n. none;
  base_nonce = λ n mm. ok 1;
  solana_nonce = λ n mm. ok 1;
  recover_quote_signer = λ otoken bid deadline id amount nonce sig.
      if id == 9 then err (external (codes "bad")) else ok (codes "0xAA");
  solana_usdc_mint = [];
  pubkey = λ t. ok [];
  signature_bytes = λ t. ok [];
  verify_solana_quote = λ key msg sig. false;
  increment_maker_nonce = λ n. ok (codes "0x1");
}

abbrev put : QuoteSubmission
put = record {
  otoken_address = codes "0x01";
  bid_price = 50;
  deadline = 1000;
  quote_id = 7;
  max_amount = 10;
  maker_nonce = 1;
  signature = codes "0x";
  chain = base;
  maker = none;
  asset = codes "eth";
  strike_price = some 2000;
  expiry = some 900000;
  is_put = some true;
}

abbrev mine : Text
mine = codes "0xaa"

abbrev old : QuoteRow
old = row_of base mine (record put { quote_id = 1; bid_price = 40 })

abbrev theirs : QuoteRow
theirs = row_of base (codes "0xbb") (record put { quote_id = 1; bid_price = 45 })

abbrev start : World
start = record { quotes = old ∷ theirs ∷ []; increments = []; tick = 0 }

-- Of a batch of three one quote is late and one is not signed by the maker; the third replaces the old
-- quote, which is pruned.
submitted :
    (submit_quotes env mine 500 put
      (record put { deadline = 400 } ∷ record put { quote_id = 9 } ∷ [])
      start).1.quotes
    ≡ theirs ∷ row_of base mine put ∷ []
unfolding submit_quotes text_eq lower ◌>>=◌
submitted = refl

cancelled : (cancel_quotes env (codes "0xAA") (some (codes "BASE")) start).0 ≡ ok 1
unfolding cancel_quotes text_eq lower starts_with
cancelled = refl

served :
    served_quotes 4 48 30 (codes "eth") base 500 (λ n. n) (codes "0x01" ∷ []) (old ∷ theirs ∷ [])
    ≡ theirs ∷ []
unfolding served_quotes text_eq lower
served = refl

submit_quotes-Submitted_example :
    Outcome
      (Submitted env (λ r. r.asset ≡ codes "eth") mine 500 put [])
      (λ _ v. Live (λ r. r.asset ≡ codes "eth") v.quotes)
      (submit_quotes env mine 500 put [] start)
submit_quotes-Submitted_example =
    submit_quotes-Submitted env (λ r. r.asset ≡ codes "eth") mine 500 put [] start
      ((λ t. refl), ((λ t. refl), tt))

invalidate_quotes-Safe_example :
    Outcome
      (λ _. Safe env 500 start)
      (λ e. Raised env 500 start e)
      (invalidate_quotes env 500 start)
invalidate_quotes-Safe_example = invalidate_quotes-Safe env 500 start

served_quotes-ServesBest_example :
    ServesBest 4 48 30
      (codes "eth")
      base
      500
      (λ n. n)
      (codes "0x01" ∷ [])
      (old ∷ theirs ∷ [])
      (served_quotes 4 48 30
        (codes "eth")
        base
        500
        (λ n. n)
        (codes "0x01" ∷ [])
        (old ∷ theirs ∷ []))
served_quotes-ServesBest_example =
    served_quotes-ServesBest 4 48 30 (codes "eth") base 500 (λ n. n) (codes "0x01" ∷ [])
      (old ∷ theirs ∷ [])
