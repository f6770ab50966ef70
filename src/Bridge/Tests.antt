-- ===== src/Bridge/Tests.antt =====
-- Runs of the relayer's model, and the theorems at concrete inputs.
use options_protocol_backend.Prelude.{
  inl, true, ◌≡◌, refl, none, some, [], ◌∷◌, ◌++◌, arith, replicate, ◌==◌, if◌then◌else◌,
}
use options_protocol_backend.Prelude.Text.{Text, codes, text_eq, starts_with}
use options_protocol_backend.Prelude.Int.{pos, ◌-ℤ◌}
use options_protocol_backend.Prelude.Decimal.{parse_int}
use options_protocol_backend.Exec.{Result, external, ok, err, ◌>>=◌, for_each}
use options_protocol_backend.Bridge.{arc, base, solana, pending, Job}
use options_protocol_backend.Bridge.Cctp.{
  from_hex, strip_0x, burn_amounts_of_decoded, burn_amounts_of_message, parse_cctp_v2_burn_amounts,
}
use options_protocol_backend.Bridge.Cctp.Encoding.{
  Layout, message_of, to_hex, parse_cctp_v2_burn_amounts-message_of,
}
use options_protocol_backend.Store.{
  Env, World, next_tick, Poll, minted, submitted, get_job, update_job_row, select_linked_intents,
  receive_message, submit_trade, poll_once,
}
use options_protocol_backend.Store.Laws.{Obs}
use options_protocol_backend.Bridge.Relayer.{
  Settings, get_domain_for_chain, poll_loop, poll_attestation, update_job,
}
use options_protocol_backend.Bridge.Relayer.Process.{
  submit_trade_with_retries, obtain_attestation, mint, trade, process_bridge_job,
  recover_incomplete_jobs,
}
use options_protocol_backend.Exec.Post.{Outcome}
use options_protocol_backend.Bridge.Routes.{BridgeAndTradeRequest, create_bridge_job}
use options_protocol_backend.Bridge.Routes.Dedup.{Same, Queued, create_bridge_job-dedups}
use options_protocol_backend.Bridge.Routes.Checks.{Services}
use options_protocol_backend.Bridge.Routes.Burns.{SolanaCctpBurnSubmitRequest, bridge_and_trade}
use options_protocol_backend.Bridge.Routes.Repeated.{bridge_and_trade-once}
use options_protocol_backend.Bridge.Relayer.Polling.{poll_attestation-enough}
use options_protocol_backend.Bridge.Relayer.Recovery.{
  unfinished_ids, recover_incomplete_jobs-enqueues,
}
use options_protocol_backend.Bridge.Relayer.Mints.{Consistent}
use options_protocol_backend.Bridge.Relayer.Outcome.{process-Consistent}
use options_protocol_backend.Bridge.Relayer.Healthy.{Healthy, Final, target}
use options_protocol_backend.Bridge.Relayer.Completes.{process-Final}
use options_protocol_backend.Bridge.Relayer.ArcAmount.{FinalizesNet, process-FinalizesNet}

abbrev config : Settings
config = record {
  cctp_domain_arc = 26;
  cctp_base_domain = 6;
  cctp_solana_domain = 5;
  cctp_attestation_poll_interval = 3;
  cctp_attestation_timeout = 900;
  cctp_trade_max_retries = 3;
}

-- The database answers, the attestation is there, the mint goes through, and the first trade fails.
abbrev env : Env
env = record {
  database = λ n. none;
  new_id = λ n. codes "id";
  poll = λ n domain tx. Poll.complete (codes "0xaa") (codes "0xbb");
  receive_message = λ n c m a. ok (codes "0xmint");
  submit_trade =
      λ n c signed. if n == 6 then err (external (codes "nonce")) else ok (codes "0xtrade");
  finalize_deposit = λ n i to amount. ok (codes "0xfinal");
  int_message = λ s. s;
  hex_message = λ s. s;
}

abbrev job : Job
job = record {
  id = codes "job-1";
  user_id = codes "user";
  source_chain = solana;
  dest_chain = base;
  status = pending;
  burn_tx_hash = codes "sig";
  burn_amount = codes "1000000";
  mint_recipient = codes "0xabc";
  quote_id = none;
  signed_trade_tx = some (codes "0x01");
  attestation_message = none;
  attestation_signature = none;
  mint_tx_hash = none;
  trade_tx_hash = none;
  arc_receive_tx_hash = none;
  arc_finalize_tx_hash = none;
  gross_amount_usdc = none;
  circle_fee_usdc = none;
  net_amount_usdc = none;
  receiver = none;
  error_message = none;
}

abbrev arc_job : Job
arc_job = record job { source_chain = base; dest_chain = arc }

abbrev world : Job → World
world j = record { jobs = j ∷ []; intents = []; queue = []; calls = []; tick = 0 }

abbrev run : Job → World
run j = (process_bridge_job config env (codes "job-1") (world j)).1

run_calls :
    (run job).calls
    ≡ submitted base (codes "0xtrade") ∷ minted base (codes "0xaa") (codes "0xmint") ∷ []
unfolding process_bridge_job obtain_attestation mint trade update_job poll_attestation
    submit_trade_with_retries get_domain_for_chain get_job update_job_row select_linked_intents
    receive_message submit_trade poll_once ◌>>=◌ for_each text_eq starts_with
run_calls = refl

process-Consistent_example :
    ((process_bridge_job config env (codes "job-1") (world job)).0 ≡ ok tt)
    × Obs (codes "job-1") (Consistent 1) (run job)
unfolding text_eq starts_with
process-Consistent_example =
    process-Consistent config env (λ n. refl) (codes "job-1") 0 job refl refl refl (world job) refl
      refl (omega arith)

process-FinalizesNet_example : FinalizesNet (codes "1000000") (run arc_job).calls
unfolding text_eq
process-FinalizesNet_example =
    process-FinalizesNet config env (codes "job-1") arc_job refl refl (world arc_job) refl refl

abbrev layout : Layout
layout = record {
  header = replicate 148 7;
  before_amount = replicate 68 0;
  before_fee = replicate 64 1;
  hook = [];
}

parse_cctp_v2_burn_amounts-message_of_example :
    parse_cctp_v2_burn_amounts (codes "0x" ++ to_hex (message_of layout 1000000 130)) none
    ≡ ok (pos 1000000, pos 130, pos 1000000 -ℤ pos 130)
parse_cctp_v2_burn_amounts-message_of_example =
    parse_cctp_v2_burn_amounts-message_of 1000000 130 (omega arith) (omega arith) layout
      (omega arith) (omega arith) (omega arith) none

short_message :
    parse_cctp_v2_burn_amounts (codes "0x12") (some (codes "1000000"))
    ≡ ok (pos 1000000, pos 0, pos 1000000)
unfolding parse_cctp_v2_burn_amounts from_hex strip_0x burn_amounts_of_decoded
    burn_amounts_of_message parse_int
short_message = refl

abbrev request : BridgeAndTradeRequest
request = record {
  user_id = codes "user";
  source_chain = base;
  dest_chain = solana;
  burn_tx_hash = codes "0xburn";
  burn_amount = codes "5";
  mint_recipient = codes "ata";
  quote_id = some (codes "q1");
  signed_trade_tx = some (codes "tx");
}

abbrev cosign : Text → Result Text
cosign s = ok (s ++ codes "+sponsor")

create_bridge_job-dedups_example :
    Outcome
      (Queued env cosign request (world job))
      (λ _. Same env cosign request (world job))
      (create_bridge_job env cosign request (world job))
create_bridge_job-dedups_example = create_bridge_job-dedups env cosign request (world job)

poll_attestation-enough_example :
    poll_loop config env 2001 0 6 (codes "0xburn") ≡ poll_attestation config env 6 (codes "0xburn")
poll_attestation-enough_example =
    poll_attestation-enough config env 6 (codes "0xburn") (omega arith) 2000 (omega arith)

recover_incomplete_jobs-enqueues_example :
    recover_incomplete_jobs env (world job)
    ≡ (ok tt, record (next_tick (world job)) { queue = [] ++ unfinished_ids (job ∷ []) })
recover_incomplete_jobs-enqueues_example = recover_incomplete_jobs-enqueues env (world job) refl

abbrev healthy_env : Env
healthy_env = record env { submit_trade = λ n c signed. ok (codes "0xtrade") }

healthy : Healthy healthy_env
healthy = record {
  database = λ n. refl;
  attested = λ n domain tx. (codes "0xaa", codes "0xbb", refl);
  received = λ n c m a. (codes "0xmint", refl);
  traded = λ n c signed. (codes "0xtrade", refl);
}

process-Final_example :
    ((process_bridge_job config healthy_env (codes "job-1") (world job)).0 ≡ ok tt)
    × Obs
        (codes "job-1")
        (Final (target job))
        (process_bridge_job config healthy_env (codes "job-1") (world job)).1
unfolding text_eq starts_with
process-Final_example =
    process-Final config healthy_env healthy (codes "job-1") job (world job) refl refl refl refl
      (inl refl) (omega arith) (omega arith)

abbrev services : Services
services = record {
  is_chain_tradable = λ c. true;
  described = λ e. codes "Exception";
  broadcast = λ n signed. ok (codes "5sig");
}

abbrev burn_request : SolanaCctpBurnSubmitRequest
burn_request = record {
  signed_transaction_base64 = codes "AQID";
  dest_chain = base;
  user_id = codes "user-1";
  mint_recipient = codes "0x1111111111111111111111111111111111111111";
  burn_amount = codes "1000";
  quote_id = some (codes "q-1");
  signed_trade_tx = none;
}

bridge_and_trade-once_example :
    Outcome
      (λ id v.
        (v.queue ≡ (world job).queue ++ id ∷ [])
        × Outcome
            (λ _ _. ⊥)
            (λ _. Same env cosign request v)
            (bridge_and_trade env services cosign request v))
      (λ _. Same env cosign request (world job))
      (bridge_and_trade env services cosign request (world job))
bridge_and_trade-once_example =
    bridge_and_trade-once env services cosign request request refl (world job)
