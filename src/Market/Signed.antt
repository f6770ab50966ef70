-- ===== src/Market/Signed.antt =====
-- src/api/mm_routes.py: the check of a signature, against what a signature is.
use options_protocol_backend.Prelude.{
  Bool, true, false, Option, none, some, ◌≡◌, refl, ap, ◌∙◌, inl, inr, [], ◌∷◌, Bool-cases, arith,
}
use options_protocol_backend.Prelude.Text.{Text, text_eq, text_eq_iff, lower, non_empty}
use options_protocol_backend.Exec.{Result, ok, err}
use options_protocol_backend.Bridge.{Chain, base, solana, arc}
use options_protocol_backend.Bridge.Cctp.{Bytes}
use options_protocol_backend.Quotes.{◌>>=◌}
use options_protocol_backend.Market.{Env, QuoteSubmission}
use options_protocol_backend.Market.Verify.{
  maker_key, message_of, check_solana, solana_error, verify_with_mint, verify_solana_sig, recover,
  signer_error, verify_base_sig, verify_sig,
}

-- A check that answers has had an answer from its first call.
answered :
    {X Y : Type 0} {y : Y} (r : Result X) (k : X → Result Y)
    → (r >>= k) ≡ ok y
    → (x : X) × (r ≡ ok x) × (k x ≡ ok y)
answered (err x) k e = cc
answered (ok x) k e = (x, refl, e)

maker_some :
    (env : Env) (o : Option Text) {key : Bytes}
    → maker_key env o ≡ ok key
    → (maker : Text) × (o ≡ some maker) × (env.pubkey maker ≡ ok key)
maker_some env none h = cc
maker_some env (some maker) h = (maker, refl, h)

module _ (env : Env) where
  -- The quote's signature is its maker's, over the message of the quote.
  abbrev pub SignedSolana : QuoteSubmission → Type 0
  SignedSolana q =
      (maker : Text) × (key otoken mint msg sig : Bytes) × (non_empty env.solana_usdc_mint ≡ true)
      × (q.maker ≡ some maker)
      × (env.pubkey maker ≡ ok key)
      × (env.pubkey q.otoken_address ≡ ok otoken)
      × (env.pubkey env.solana_usdc_mint ≡ ok mint)
      × (message_of env q otoken mint ≡ ok msg)
      × (env.signature_bytes q.signature ≡ ok sig)
      × (env.verify_solana_quote key msg sig ≡ true)

  check_solana-SignedSolana :
      (q : QuoteSubmission)
      → non_empty env.solana_usdc_mint ≡ true
      → check_solana env q ≡ ok true
      → SignedSolana q
  unfolding check_solana
  check_solana-SignedSolana q mint_set h =
      let (key, ek, h1) = answered (maker_key env q.maker) _ h in
      let (otoken, eo, h2) = answered (env.pubkey q.otoken_address) _ h1 in
      let (mint, em, h3) = answered (env.pubkey env.solana_usdc_mint) _ h2 in
      let (msg, eg, h4) = answered (message_of env q otoken mint) _ h3 in
      let (sig, es, h5) = answered (env.signature_bytes q.signature) _ h4 in
      let (maker, eq, ep) = maker_some env q.maker ek in
      (maker, key, otoken, mint, msg, sig, mint_set, eq, ep, eo, em, eg, es, cc)

  solana_error-none : (r : Result Bool) → solana_error env r ≡ none → r ≡ ok true
  solana_error-none (ok true) h = refl
  solana_error-none (ok false) h = cc
  solana_error-none (err e) h = cc

  verify_with_mint-SignedSolana :
      (mint : Text) (q : QuoteSubmission)
      → env.solana_usdc_mint ≡ mint
      → verify_with_mint env mint q ≡ none
      → SignedSolana q
  verify_with_mint-SignedSolana [] q e h = cc
  verify_with_mint-SignedSolana (c ∷ s) q e h =
      check_solana-SignedSolana q (ap non_empty e) (solana_error-none (check_solana env q) h)

  -- The recovered signer is the maker.
  abbrev pub SignedBase : Text → QuoteSubmission → Type 0
  SignedBase mm_address q =
      (signer : Text) × (env.recover_quote_signer q.otoken_address q.bid_price q.deadline q.quote_id
          q.max_amount q.maker_nonce q.signature
        ≡ ok signer)
      × (lower signer ≡ lower mm_address)

  signer_error-none :
      (mm : Text) (r : Result Text)
      → signer_error env mm r ≡ none
      → (signer : Text) × (r ≡ ok signer) × (lower signer ≡ lower mm)
  signer_error-none mm (err e) h = cc
  signer_error-none mm (ok signer) h = elim (Bool-cases (text_eq (lower signer) (lower mm))) [
    | inl same ↦ (signer, refl, (text_eq_iff (lower signer) (lower mm)).0 same)
    | inr other ↦ ground (arith, h, other)
  ]

  abbrev pub Signed : Chain → Text → QuoteSubmission → Type 0
  Signed solana mm_address q = SignedSolana q
  Signed base mm_address q = SignedBase mm_address q
  Signed arc mm_address q = SignedBase mm_address q

  pub verify_sig-Signed :
      (chain : Chain) (mm : Text) (q : QuoteSubmission)
      → verify_sig env chain mm q ≡ none
      → Signed chain mm q
  unfolding verify_sig
  verify_sig-Signed solana mm q h = verify_with_mint-SignedSolana env.solana_usdc_mint q refl h
  verify_sig-Signed base mm q h = signer_error-none mm (recover env q) h
  verify_sig-Signed arc mm q h = signer_error-none mm (recover env q) h

  SignedBase-verify :
      (mm : Text) (q : QuoteSubmission) → SignedBase mm q → verify_base_sig env mm q ≡ none
  unfolding verify_base_sig
  SignedBase-verify mm q (signer, e, same) =
      ap (signer_error env mm) e ∙ rw ((text_eq_iff (lower signer) (lower mm)).1 same)

  SignedSolana-verify : (q : QuoteSubmission) → SignedSolana q → verify_solana_sig env q ≡ none
  unfolding verify_solana_sig
  SignedSolana-verify q (maker, key, otoken, mint, msg, sig, set, eq, ep, eo, em, eg, es, ev) =
      with_mint env.solana_usdc_mint set (rw (eq, ep) (rw eo (rw em (rw eg (rw es (ap ok ev))))))
    where
      with_mint :
          (m : Text)
          → non_empty m ≡ true
          → check_solana env q ≡ ok true
          → verify_with_mint env m q ≡ none
      with_mint [] h e = cc
      with_mint (c ∷ s) h e = ap (solana_error env) e

  pub Signed-verify :
      (chain : Chain) (mm : Text) (q : QuoteSubmission)
      → Signed chain mm q
      → verify_sig env chain mm q ≡ none
  unfolding verify_sig
  Signed-verify solana mm q h = SignedSolana-verify q h
  Signed-verify base mm q h = SignedBase-verify mm q h
  Signed-verify arc mm q h = SignedBase-verify mm q h
