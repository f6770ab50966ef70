-- ===== src/Indexer/Tests.antt =====
-- The theorems about the indexer at concrete inputs.
use mathlib.Core.Path.{subst}
use options_protocol_backend.Prelude.{
  ℕ, ◌≤◌, true, sym, All, none, some, List, [], ◌∷◌, filter, arith, ◌==◌, if◌then◌else◌,
}
use options_protocol_backend.Prelude.Text.{codes}
use options_protocol_backend.Exec.{ok, ok-injective}
use options_protocol_backend.Indexer.{
  OrderLog, DeliveryLog, Metadata, Indexer, written, Pass, Addresses,
}
use options_protocol_backend.Indexer.Cycle.{index_once, process_order_subscription_log}
use options_protocol_backend.Indexer.Progress.{index_once-Advances}
use options_protocol_backend.Indexer.Scan.{is_in_range}
use options_protocol_backend.Indexer.Moves.{Honest, Covered}
use options_protocol_backend.Indexer.Coverage.{index_once-Covered}
use options_protocol_backend.Indexer.Subscription.{Clamped, process_order_subscription_log-Clamped}

abbrev order_log : ℕ → OrderLog
order_log block = record {
  transaction_hash = block ∷ [];
  block_number = block;
  log_index = 0;
  user = codes "0xUser";
  mm = codes "0xmm";
  otoken = codes "0xtoken";
  amount = 100000000;
  gross_premium = 50;
  net_premium = 48;
  fee = 2;
  collateral = 2000;
  vault_id = 1;
}

abbrev delivery_log : DeliveryLog
delivery_log = record {
  transaction_hash = codes "0xd";
  block_number = 12;
  user = codes "0xUser";
  otoken = codes "0xtoken";
  contra_amount = 5;
}

abbrev metadata : Metadata
metadata = record {
  strike_price = some (codes "2000");
  expiry = some 1000;
  is_put = some true;
  asset = codes "eth";
  underlying = none;
}

abbrev history : List OrderLog
history = order_log 11 ∷ order_log 12 ∷ []

-- The metadata of the order in block 12 cannot be read.
abbrev pass : Pass
pass = record {
  order_logs = λ from to. ok (filter (is_in_range from to) history);
  delivery_logs = λ from to. ok [];
  order_metadata = λ l. if l.block_number == 12 then none else some metadata;
  delivery_metadata = λ l. some metadata;
  upsert = λ es. written;
  delivery_update = λ d. none;
  cursor_read = none;
  cursor_update = λ b. none;
}

abbrev addresses : Addresses
addresses = record {
  wbtc_address = codes "0xB";
  weth_address = codes "0xE";
  usdc_address = codes "0xU";
}

abbrev start : Indexer
start = record {
  order_events = [];
  last_indexed_block = 10;
  pending_failure_block = some 12;
  notified = [];
}

abbrev log : OrderLog
log = order_log 11

index_once-Advances_example : 10 ≤ (index_once pass pass addresses 20 start).1.last_indexed_block
index_once-Advances_example = index_once-Advances pass pass addresses 20 start

pass-Honest : Honest history pass
pass-Honest = record {
  orders = λ from to logs e. sym (ok-injective e);
  deliveries = λ from to logs e. subst (All (λ l. l.block_number ≤ to)) (ok-injective e) tt;
}

index_once-Covered_example : Covered history (index_once pass pass addresses 20 start).1
index_once-Covered_example =
    index_once-Covered history (omega arith, (omega arith, tt)) pass pass pass-Honest addresses 20
      start ((λ h. absurd (omega (arith, h))), ((λ h. absurd (omega (arith, h))), tt))

process_order_subscription_log-Clamped_example :
    Clamped 10 11 (process_order_subscription_log pass log start).1
process_order_subscription_log-Clamped_example =
    process_order_subscription_log-Clamped pass log start
