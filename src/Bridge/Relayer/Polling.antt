-- ===== src/Bridge/Relayer/Polling.antt =====
-- The fuel of the loop of `poll_attestation` in src/bridge/cctp.py.
use options_protocol_backend.Prelude.{
  ℕ, zero, suc, ◌+◌, ◌≤◌, false, ◌≡◌, refl, sym, ◌∙◌, ap, arith, ltb, if◌then◌else◌,
}
use options_protocol_backend.Prelude.Text.{Text}
use options_protocol_backend.Exec.{raise, ◌>>=◌}
use options_protocol_backend.Store.{Env, poll_once}
use options_protocol_backend.Bridge.Relayer.{
  Settings, on_answer, timed_out, poll_loop, poll_attestation,
}

late : (a b : ℕ) → b ≤ a → ltb a b ≡ false
late a b h = ground (arith, h)

module _ (config : Settings) (env : Env) (domain : ℕ) (tx : Text)
    (interval : 1 ≤ config.cctp_attestation_poll_interval) where
  abbrev timeout : ℕ
  timeout = config.cctp_attestation_timeout

  poll_loop-ended :
      (fuel elapsed : ℕ)
      → timeout ≤ elapsed
      → poll_loop config env (suc fuel) elapsed domain tx ≡ raise (timed_out config env tx)
  unfolding poll_loop
  poll_loop-ended fuel elapsed h = rw (late elapsed timeout h) refl

  poll_loop-stable :
      (fuel fuel' elapsed : ℕ)
      → timeout ≤ fuel + elapsed
      → timeout ≤ fuel' + elapsed
      → poll_loop config env (suc fuel) elapsed domain tx
        ≡ poll_loop config env (suc fuel') elapsed domain tx
  unfolding poll_loop
  poll_loop-stable zero fuel' elapsed h h' =
      poll_loop-ended zero elapsed (omega (arith, h))
      ∙ sym (poll_loop-ended fuel' elapsed (omega (arith, h)))
  poll_loop-stable (suc fuel) zero elapsed h h' =
      poll_loop-ended (suc fuel) elapsed (omega (arith, h'))
      ∙ sym (poll_loop-ended zero elapsed (omega (arith, h')))
  poll_loop-stable (suc fuel) (suc fuel') elapsed h h' =
      ap
        (λ again.
          if ltb elapsed timeout
          then (poll_once env domain tx >>= λ answer. on_answer config env answer again)
          else raise (timed_out config env tx))
        (poll_loop-stable fuel fuel' (elapsed + config.cctp_attestation_poll_interval)
          (omega (arith, h, interval)) (omega (arith, h', interval)))

  -- At an interval of at least one second, any fuel past the time-out gives the poll that the model
  -- runs: the loop ends before its fuel does, by an answer, an exception or the time-out.
  pub poll_attestation-enough :
      (fuel : ℕ)
      → config.cctp_attestation_timeout ≤ fuel
      → poll_loop config env (suc fuel) 0 domain tx ≡ poll_attestation config env domain tx
  unfolding poll_attestation
  poll_attestation-enough fuel h = poll_loop-stable fuel timeout 0 (omega (arith, h)) (omega arith)
