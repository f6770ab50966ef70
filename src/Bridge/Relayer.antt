-- ===== src/Bridge/Relayer.antt =====
-- src/bridge/relayer.py: one worker's run over a bridge job. The body's log lines are left out.
pub mod Arc
pub mod Process
pub mod Rules
pub mod Mints
pub mod Outcome
pub mod Healthy
pub mod Completes
pub mod Ordering
pub mod ArcAmount
pub mod Polling
pub mod Recovery
use options_protocol_backend.Prelude.{
  ℕ, zero, suc, ◌+◌, Bool, true, false, ◌&&◌, Option, none, some, List, [], ◌∷◌, ◌++◌, length, ltb,
  ◌==◌, if◌then◌else◌,
}
use options_protocol_backend.Prelude.Text.{Text, codes, starts_with, non_empty, or_else}
use options_protocol_backend.Prelude.Decimal.{str_nat}
use options_protocol_backend.Exec.{Exn, raised, pure, raise, try_except, ◌>>=◌, ◌>>◌}
use options_protocol_backend.Bridge.{
  Chain, arc, base, solana, BridgeJobState, pending, attesting, minting, trading, completed,
  mint_completed, Job, BridgeFields,
}
use options_protocol_backend.Capital.{Intent}
use options_protocol_backend.Capital.Sync.{sync_capital_intents_for_bridge_job}
use options_protocol_backend.Store.{Env, Action, Poll, update_job_row, poll_once}

-- The values of src/config.py that the relayer reads.
pub record Settings : Type 0 where
  pub cctp_domain_arc : ℕ
  pub cctp_base_domain : ℕ
  pub cctp_solana_domain : ℕ
  pub cctp_attestation_poll_interval : ℕ
  pub cctp_attestation_timeout : ℕ
  pub cctp_trade_max_retries : ℕ

-- `status in (PENDING, ATTESTING)`
abbrev pub awaits_attestation : BridgeJobState → Bool
awaits_attestation pending = true
awaits_attestation attesting = true
awaits_attestation _ = false

-- `status in (PENDING, ATTESTING, MINTING)`
abbrev pub awaits_mint : BridgeJobState → Bool
awaits_mint minting = true
awaits_mint s = awaits_attestation s

-- `status in {COMPLETED, MINT_COMPLETED}`
abbrev pub is_done : BridgeJobState → Bool
is_done completed = true
is_done mint_completed = true
is_done _ = false

abbrev pub is_trading : BridgeJobState → Bool
is_trading trading = true
is_trading _ = false

abbrev pub is_arc : Chain → Bool
is_arc arc = true
is_arc _ = false

-- `_arc_finalize_tx`
abbrev pub arc_finalize_tx : Job → Option Text
arc_finalize_tx j = or_else j.arc_finalize_tx_hash j.trade_tx_hash

-- `_is_bytes32_hex`
unfoldable pub is_bytes32_hex : Option Text → Bool
unfolding starts_with
is_bytes32_hex none = false
is_bytes32_hex (some s) = non_empty s && starts_with s (codes "0x") && length s == 66

abbrev pub text_or : Option Text → Text → Text
text_or none d = d
text_or (some []) d = d
text_or (some (c ∷ s)) d = c ∷ s

-- `raise` unless the value is truthy, and the value
abbrev pub require_text : Option Text → Exn → Action Text
require_text none e = raise e
require_text (some []) e = raise e
require_text (some (c ∷ s)) e = pure (c ∷ s)

abbrev pub require_intent : List Intent → Exn → Action Intent
require_intent [] e = raise e
require_intent (i ∷ is) e = pure i

module _ (env : Env) where
  -- `_update_job`: a failed synchronisation is only logged.
  unfoldable pub update_job : Text → BridgeFields → Action Unit
  unfolding sync_capital_intents_for_bridge_job
  update_job job_id f = do
    update_job_row env job_id f
    try_except (sync_capital_intents_for_bridge_job env job_id f) (λ _. pure tt)

module _ (config : Settings) (env : Env) where
  open config use {
    cctp_domain_arc, cctp_base_domain, cctp_solana_domain, cctp_attestation_poll_interval,
    cctp_attestation_timeout, cctp_trade_max_retries,
  }

  unfoldable pub get_domain_for_chain : Chain → ℕ
  get_domain_for_chain arc = cctp_domain_arc
  get_domain_for_chain base = cctp_base_domain
  get_domain_for_chain solana = cctp_solana_domain

  -- The loop runs on fuel, one more than the time-out in seconds: at an interval of a second or more
  -- each round adds at least one to `elapsed`, and the loop ends at the time-out.
  unfoldable pub on_answer : Poll → Action (Text × Text) → Action (Text × Text)
  on_answer (Poll.complete m a) again = pure (m, a)
  on_answer (Poll.broken e) again = raise e
  on_answer _ again = again

  abbrev pub timed_out : Text → Exn
  timed_out tx = raised (
      codes "Attestation timeout after "
      ++ (str_nat cctp_attestation_timeout ++ (codes "s for " ++ tx)))

  unfoldable pub poll_loop : ℕ → ℕ → ℕ → Text → Action (Text × Text)
  unfolding on_answer
  poll_loop zero elapsed domain tx = raise (timed_out tx)
  poll_loop (suc fuel) elapsed domain tx =
      let again = poll_loop fuel (elapsed + cctp_attestation_poll_interval) domain tx in
      if ltb elapsed cctp_attestation_timeout
      then (do answer ← poll_once env domain tx; on_answer answer again)
      else raise (timed_out tx)

  unfoldable pub poll_attestation : ℕ → Text → Action (Text × Text)
  unfolding poll_loop
  poll_attestation domain tx = poll_loop (suc cctp_attestation_timeout) 0 domain tx
