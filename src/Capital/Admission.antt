-- ===== src/Capital/Admission.antt =====
-- The bridge job, in src/capital_intents/routes.py, of an intent that passes the validation of
-- src/capital_intents/models.py.
use mathlib.Core.Bool.{true≢false}
use mathlib.Core.Path.{subst}
use options_protocol_backend.Prelude.Int.{ℤ, pos, leb_ℤ}
use options_protocol_backend.Prelude.{
  Bool, true, false, not, ◌&&◌, ◌||◌, ◌≡◌, refl, sym, ap, Option, none, some, if◌then◌else◌,
}
use options_protocol_backend.Prelude.Text.{Text, truthy, non_empty}
use options_protocol_backend.Exec.{Result, ok, err}
use options_protocol_backend.Bridge.{chain_eq, Job}
use options_protocol_backend.Bridge.Cctp.{python_int}
use options_protocol_backend.Capital.Create.{
  CapitalIntentCreate, is_base_to_arc_deposit, is_base_solana_move, reject_if, validate_bridge_job,
  validate_intent, bridge_job_row, create_bridge_job_row, ◌>>=◌, ◌>>◌, Check, text_of, is_deposit,
}

abbrev is_ok : {A : Type 0} → Result A → Bool
is_ok (ok a) = true
is_ok (err e) = false

-- a check that passed was not to be rejected, and the rest passed
passed :
    (b : Bool) (what : Text) (rest : Check)
    → is_ok (reject_if b what >> rest) ≡ true
    → (b ≡ false) × (is_ok rest ≡ true)
passed true what rest h = absurd (true≢false (sym h))
passed false what rest h = (refl, h)

passed_value :
    {A : Type 0} (r : Result A) (f : A → Check)
    → is_ok (r >>= f) ≡ true
    → (a : A) × (r ≡ ok a) × (is_ok (f a) ≡ true)
passed_value (ok a) f h = (a, refl, h)
passed_value (err e) f h = absurd (true≢false (sym h))

true_of_not : (b : Bool) → not b ≡ false → b ≡ true
true_of_not true h = refl
true_of_not false h = absurd (true≢false h)

non_empty_text : (o : Option Text) → truthy o ≡ true → non_empty (text_of o) ≡ true
non_empty_text none h = absurd (true≢false (sym h))
non_empty_text (some s) h = h

validate_bridge_job-passed :
    (body : CapitalIntentCreate)
    → is_ok (validate_bridge_job body) ≡ true
    → (truthy body.user_id ≡ true)
      × (truthy body.source_tx ≡ true)
      × ((is_base_solana_move body || is_base_to_arc_deposit body) ≡ true)
unfolding validate_bridge_job
validate_bridge_job-passed body h =
    let (linked, h1) = passed (truthy body.bridge_job_id) _ _ h in
    let (user, h2) = passed (not (truthy body.user_id)) _ _ h1 in
    let (source, h3) = passed (not (truthy body.source_tx)) _ _ h2 in
    let (route, h4) =
      passed (not (is_base_solana_move body || is_base_to_arc_deposit body)) _ _ h3 in
    (true_of_not _ user, true_of_not _ source, true_of_not _ route)

validate_intent-passed :
    (body : CapitalIntentCreate)
    → body.create_bridge_job ≡ true
    → is_ok (validate_intent body) ≡ true
    → (chain_eq body.source_chain body.destination_chain ≡ false)
      × ((amount : ℤ) × (python_int body.amount_usdc ≡ ok amount) × (leb_ℤ amount (pos 0) ≡ false))
      × (is_ok (validate_bridge_job body) ≡ true)
unfolding validate_intent
validate_intent-passed body create h =
    let (chains, h1) = passed (chain_eq body.source_chain body.destination_chain) _ _ h in
    let (amount, parsed, h2) = passed_value (python_int body.amount_usdc) _ h1 in
    let (positive, h3) = passed (leb_ℤ amount (pos 0)) _ _ h2 in
    let (receiver, h4) =
      passed (is_deposit body.intent_type && not (truthy body.receiver)) _ _ h3 in
    (
      chains,
      (amount, parsed, positive),
      subst (λ b. is_ok (if b then validate_bridge_job body else ok tt) ≡ true) create h4,
    )

-- A job that the relayer can work on: it has a user and a burn, leads from one chain to another, and
-- its amount reads as a positive number.
abbrev pub Workable : Job → Type 0
Workable j =
    (non_empty j.user_id ≡ true)
    × (non_empty j.burn_tx_hash ≡ true)
    × (chain_eq j.source_chain j.dest_chain ≡ false)
    × ((amount : ℤ) × (python_int j.burn_amount ≡ ok amount) × (leb_ℤ amount (pos 0) ≡ false))

-- A new intent that passes the validation and asks for a bridge job gets one: the second guard, in
-- the route, does not refuse it, and the row that is written has a user, a burn, two chains that
-- differ, and an amount that reads as a positive number.
pub validate_intent-Workable :
    (id : Text) (body : CapitalIntentCreate)
    → body.create_bridge_job ≡ true
    → validate_intent body ≡ ok tt
    → (j : Job) × (create_bridge_job_row id body ≡ ok j) × Workable j
unfolding create_bridge_job_row
validate_intent-Workable id body create valid =
    let (chains, amount, rest) = validate_intent-passed body create (ap is_ok valid) in
    let (user, source, route) = validate_bridge_job-passed body rest in
    (
      bridge_job_row id body,
      rw route refl,
      (non_empty_text body.user_id user, non_empty_text body.source_tx source, chains, amount),
    )
