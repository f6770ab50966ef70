-- ===== src/Bridge/Relayer/Process.antt =====
-- src/bridge/relayer.py, `process_bridge_job` with `_submit_trade`, the worker around it, and the
-- recovery of jobs at start-up.
use options_protocol_backend.Prelude.{
  ℕ, zero, suc, Bool, true, false, Option, none, some, List, [], ◌∷◌, ◌++◌, take, if◌then◌else◌,
}
use options_protocol_backend.Prelude.Text.{Text, codes, starts_with}
use options_protocol_backend.Prelude.Decimal.{str_nat}
use options_protocol_backend.Exec.{Exn, raised, pure, raise, try_except, for_each, ◌>>=◌, ◌>>◌}
use options_protocol_backend.Bridge.{
  Chain, BridgeJobState, attesting, minting, trading, completed, mint_completed, failed,
  mint_completed_trade_failed, Job, no_fields, state_value,
}
use options_protocol_backend.Bridge.Relayer.{
  Settings, awaits_attestation, awaits_mint, is_done, is_trading, is_arc, arc_finalize_tx,
  require_text, update_job, get_domain_for_chain, poll_attestation,
}
use options_protocol_backend.Bridge.Relayer.Arc.{
  finalized_fields, job_error, process_arc_deposit_job,
}
use options_protocol_backend.Store.{
  Env, Action, str_exn, get_job, receive_message, submit_trade, enqueue_job, on_database,
}

-- The prefix of the hash of a burn that is only reserved.
abbrev pub is_reservation : Job → Bool
is_reservation j = starts_with j.burn_tx_hash (codes "pending:")

module _ (config : Settings) (env : Env) where
  -- `_submit_trade`: up to `cctp_trade_max_retries` attempts; the waits between them are left out.
  unfoldable pub submit_attempts : ℕ → Chain → Text → Exn → Action Text
  submit_attempts zero chain signed last = raise last
  submit_attempts (suc n) chain signed last =
      try_except (submit_trade env chain signed) (λ e. submit_attempts n chain signed e)

  abbrev pub trade_failed : Exn → Exn
  trade_failed last = raised (
      codes "Trade failed after "
      ++ (str_nat config.cctp_trade_max_retries ++ (codes " attempts: " ++ str_exn env last)))

  unfoldable pub submit_trade_with_retries : Chain → Text → Action Text
  unfolding submit_attempts
  submit_trade_with_retries chain signed =
      try_except
        (submit_attempts config.cctp_trade_max_retries chain signed (raised (codes "None")))
        (λ last. raise (trade_failed last))

  unfoldable pub attest : Text → Job → Action (Text × Text)
  attest job_id job = do
    update_job env job_id (record no_fields { status = some attesting })
    (message, attestation) ←
        poll_attestation config env (get_domain_for_chain config env job.source_chain)
          job.burn_tx_hash
    update_job env job_id (record no_fields {
      status = some minting;
      attestation_message = some message;
      attestation_signature = some attestation;
    })
    pure (message, attestation)

  abbrev pub missing_attestation : Text → Job → Exn
  missing_attestation job_id job = raised (
      job_error job_id
        (codes " in state " ++ (state_value job.status ++ codes " but missing attestation data")))

  -- a run that resumes from a later state takes the attestation from the row
  unfoldable pub recorded_attestation : Text → Job → Action (Text × Text)
  recorded_attestation job_id job = do
    message ← require_text job.attestation_message (missing_attestation job_id job)
    attestation ← require_text job.attestation_signature (missing_attestation job_id job)
    pure (message, attestation)

  unfoldable pub obtain_attestation : Text → Job → Action (Text × Text)
  unfolding attest recorded_attestation
  obtain_attestation job_id job =
      if awaits_attestation job.status then attest job_id job else recorded_attestation job_id job

  unfoldable pub mint_now : Text → Job → Text → Text → Action Unit
  mint_now job_id job message attestation = do
    mint_tx ← receive_message env job.dest_chain message attestation
    update_job env job_id (record no_fields { status = some trading; mint_tx_hash = some mint_tx })

  unfoldable pub mint : Text → Job → Text → Text → Action Unit
  unfolding mint_now
  mint job_id job message attestation =
      if awaits_mint job.status then mint_now job_id job message attestation else pure tt

  unfoldable pub trade_signed : Text → Job → Option Text → Action Unit
  trade_signed job_id job (some (c ∷ s)) = do
    trade_tx ← submit_trade_with_retries job.dest_chain (c ∷ s)
    update_job env job_id
        (record no_fields { status = some completed; trade_tx_hash = some trade_tx })
  trade_signed job_id job _ =
      update_job env job_id (record no_fields { status = some mint_completed })

  unfoldable pub trade : Text → Job → Action Unit
  unfolding trade_signed
  trade job_id job = trade_signed job_id job job.signed_trade_tx

  abbrev pub deliver : Text → Job → Text × Text → Action Unit
  deliver job_id job (message, attestation) =
      if is_arc job.dest_chain
      then process_arc_deposit_job env job_id job job.status message attestation
      else (mint job_id job message attestation >> trade job_id job)

  -- the body of the `try`
  unfoldable pub advance : Text → Job → Action Unit
  advance job_id job = do evidence ← obtain_attestation job_id job; deliver job_id job evidence

  -- What the handler finds when it reads the job again.
  abbrev pub preserved_tx : Chain → Option Job → Option Text
  preserved_tx dest none = none
  preserved_tx dest (some current) = if is_arc dest then arc_finalize_tx current else none

  abbrev pub fail_state : Option Job → BridgeJobState
  fail_state none = failed
  fail_state (some current) =
      if is_trading current.status then mint_completed_trade_failed else failed

  abbrev pub conclude : Text → Exn → Option Job → Option Text → Action Unit
  conclude job_id e current (some (c ∷ s)) =
      try_except (update_job env job_id (finalized_fields (c ∷ s))) (λ _. pure tt)
  conclude job_id e current _ =
      try_except
        (update_job env job_id (record no_fields {
          status = some (fail_state current);
          error_message = some (some (take 500 (str_exn env e)));
        }))
        (λ _. pure tt)

  -- the `except` clause
  unfoldable pub on_failure : Text → Chain → Exn → Action Unit
  on_failure job_id dest e = do
    current ← get_job env job_id
    conclude job_id e current (preserved_tx dest current)

  -- the guards before the `try`
  abbrev pub guarded : Text → Job → Option Text → Action Unit
  guarded job_id job (some (c ∷ s)) = update_job env job_id (finalized_fields (c ∷ s))
  guarded job_id job _ =
      if is_reservation job
      then pure tt
      else try_except (advance job_id job) (on_failure job_id job.dest_chain)

  abbrev pub process_found : Text → Option Job → Action Unit
  process_found job_id none = pure tt
  process_found job_id (some job) =
      if is_done job.status
      then pure tt
      else guarded job_id job (if is_arc job.dest_chain then arc_finalize_tx job else none)

  unfoldable pub process_bridge_job : Text → Action Unit
  unfolding advance on_failure
  process_bridge_job job_id = do found ← get_job env job_id; process_found job_id found

  -- one round of `_worker`: nothing that a job raises stops the worker
  unfoldable pub worker_step : Text → Action Unit
  unfolding process_bridge_job
  worker_step job_id = try_except (process_bridge_job job_id) (λ _. pure tt)

-- the states that `recover_incomplete_jobs` leaves alone
abbrev pub is_terminal : BridgeJobState → Bool
is_terminal completed = true
is_terminal mint_completed = true
is_terminal failed = true
is_terminal mint_completed_trade_failed = true
is_terminal _ = false

abbrev pub incomplete : List Job → List Text
incomplete [] = []
incomplete (j ∷ js) = let rest = incomplete js in if is_terminal j.status then rest else j.id ∷ rest

module _ (env : Env) where
  unfoldable pub select_incomplete : Action (List Text)
  select_incomplete w = on_database (env.database w.tick) (λ v. incomplete v.jobs) (λ v. v) w

  unfoldable pub recover_incomplete_jobs : Action Unit
  unfolding select_incomplete
  recover_incomplete_jobs = do ids ← select_incomplete; for_each ids (enqueue_job env)
