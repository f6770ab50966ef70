-- ===== src/Market/Verify.antt =====
-- src/api/mm_routes.py: the check of a quote's signature. A check answers with the text of a refusal,
-- or with none.
use options_protocol_backend.Prelude.{Bool, true, false, Option, none, some, [], ◌∷◌, if◌then◌else◌}
use options_protocol_backend.Prelude.Text.{Text, codes, text_eq, lower}
use options_protocol_backend.Prelude.Int.{pos}
use options_protocol_backend.Exec.{external, Result, ok, err}
use options_protocol_backend.Bridge.{Chain, solana}
use options_protocol_backend.Bridge.Cctp.{Bytes}
use options_protocol_backend.Quotes.{◌>>=◌, build_solana_quote_message}
use options_protocol_backend.Market.{Env, QuoteSubmission}

module _ (env : Env) where
  abbrev pub maker_key : Option Text → Result Bytes
  maker_key none = err (external [])
  maker_key (some maker) = env.pubkey maker

  -- the bytes that the maker of a Solana quote signs
  abbrev pub message_of : QuoteSubmission → Bytes → Bytes → Result Bytes
  message_of q otoken mint = build_solana_quote_message (record {
    otoken_mint = otoken;
    premium_mint = mint;
    bid_price = pos q.bid_price;
    deadline = pos q.deadline;
    quote_id = pos q.quote_id;
    max_amount = pos q.max_amount;
    maker_nonce = pos q.maker_nonce;
  })

  unfoldable pub check_solana : QuoteSubmission → Result Bool
  check_solana q = do
    key ← maker_key q.maker
    otoken ← env.pubkey q.otoken_address
    mint ← env.pubkey env.solana_usdc_mint
    msg ← message_of q otoken mint
    sig ← env.signature_bytes q.signature
    ok (env.verify_solana_quote key msg sig)

  abbrev pub solana_error : Result Bool → Option Text
  solana_error (ok true) = none
  solana_error (ok false) = some (codes "signature does not match maker pubkey")
  solana_error (err e) = some (codes "invalid signature")

  abbrev pub verify_with_mint : Text → QuoteSubmission → Option Text
  verify_with_mint [] q =
      some (codes "SOLANA_USDC_MINT not configured — cannot verify Solana quotes")
  verify_with_mint (c ∷ s) q = solana_error (check_solana q)

  -- `_verify_solana_sig`
  unfoldable pub verify_solana_sig : QuoteSubmission → Option Text
  unfolding check_solana
  verify_solana_sig q = verify_with_mint env.solana_usdc_mint q

  unfoldable pub recover : QuoteSubmission → Result Text
  recover q =
      env.recover_quote_signer q.otoken_address q.bid_price q.deadline q.quote_id q.max_amount
        q.maker_nonce q.signature

  abbrev pub signer_error : Text → Result Text → Option Text
  signer_error mm (err e) = some (codes "invalid signature")
  signer_error mm (ok signer) =
      if text_eq (lower signer) (lower mm)
      then none
      else some (codes "signature does not match authenticated MM address")

  -- `_verify_base_sig`
  unfoldable pub verify_base_sig : Text → QuoteSubmission → Option Text
  unfolding recover
  verify_base_sig mm q = signer_error mm (recover q)

  unfoldable pub verify_sig : Chain → Text → QuoteSubmission → Option Text
  unfolding verify_solana_sig verify_base_sig
  verify_sig solana mm q = verify_solana_sig q
  verify_sig _ mm q = verify_base_sig mm q
