-- ===== src/Capital/Tests.antt =====
-- The theorems about intents at concrete inputs.
use options_protocol_backend.Prelude.{
  ℕ, ◌+◌, ◌≤◌, true, false, ◌≡◌, refl, none, some, Option, [], ◌∷◌, ◌==◌, if◌then◌else◌, Bool-cases,
  inl, inr, arith, length,
}
use options_protocol_backend.Prelude.Text.{Text, codes, text_eq}
use options_protocol_backend.Prelude.Decimal.{parse_int, str_nat}
use options_protocol_backend.Exec.{Result, ok, external}
use options_protocol_backend.Exec.Post.{Outcome}
use options_protocol_backend.Bridge.{base, solana, Job}
use options_protocol_backend.Capital.{CapitalIntentType, CapitalIntentStatus, Intent}
use options_protocol_backend.Capital.Create.{
  CapitalIntentCreate, validate_intent, create_bridge_job_row, bridge_job_row,
}
use options_protocol_backend.Capital.Admission.{Workable, validate_intent-Workable}
use options_protocol_backend.Capital.Routes.{
  to_response, intent_row, create_capital_intent, sync_row_from_bridge,
}
use options_protocol_backend.Capital.Keys.{UniqueKeys}
use options_protocol_backend.Capital.Once.{create_capital_intent-UniqueKeys}
use options_protocol_backend.Capital.Linked.{Returned, Raised, create_capital_intent-Linked}
use options_protocol_backend.Capital.Repeat.{Same, create_capital_intent-repeats}
use options_protocol_backend.Capital.OnRead.{InStep, AsBefore, sync_row_from_bridge-InStep}
use options_protocol_backend.Capital.Reconcile.{
  OrderEvent, Accounts, deployed_intents, reconcile_settled_positions,
}
use options_protocol_backend.Capital.Reconciled.{
  total, keys, Keys, RotationKey, reconcile_settled_positions-UniqueKeys,
  reconcile_settled_positions-Counted,
}
use options_protocol_backend.Store.{Env, World, not_indexed}

abbrev body : CapitalIntentCreate
body = record {
  intent_type = CapitalIntentType.deployment;
  movement_reason = none;
  bucket_id = none;
  receiver = none;
  source_chain = base;
  source_account = codes "0xa";
  source_tx = some (codes "0xburn");
  destination_chain = solana;
  destination_account = codes "ata";
  destination_tx = none;
  amount_usdc = codes "1000000";
  onchain_intent_id = none;
  status = none;
  idempotency_key = none;
  bridge_job_id = none;
  create_bridge_job = true;
  user_id = some (codes "user");
  quote_id = none;
  signed_trade_tx = none;
}

body_valid : validate_intent body ≡ ok tt
unfolding validate_intent parse_int
body_valid = refl

validate_intent-Workable_example :
    (j : Job) × (create_bridge_job_row (codes "job-1") body ≡ ok j) × Workable j
validate_intent-Workable_example = validate_intent-Workable (codes "job-1") body refl body_valid

-- The third call to the database fails.
abbrev env : Env
env = record {
  database = λ n. if n == 3 then some (external (codes "timeout")) else none;
  new_id = λ n. str_nat n;
  poll = λ n domain tx. not_indexed;
  receive_message = λ n c m a. ok (codes "0xmint");
  submit_trade = λ n c s. ok (codes "0xtrade");
  finalize_deposit = λ n i to amount. ok (codes "0xfinal");
  int_message = λ s. s;
  hex_message = λ s. s;
}

abbrev keyed_body : CapitalIntentCreate
keyed_body = record body { idempotency_key = some (codes "key-1") }

abbrev deployed_intent : Intent
deployed_intent = record (intent_row body none none (codes "i-1")) {
  status = CapitalIntentStatus.deployed;
  destination_tx = some (codes "0xtrade");
  idempotency_key = some (codes "key-1");
  bridge_job_id = some (codes "job-1");
}

abbrev world : World
world = record {
  jobs = bridge_job_row (codes "job-1") body ∷ [];
  intents = deployed_intent ∷ [];
  queue = [];
  calls = [];
  tick = 0;
}

-- The position expired out of the money and is settled.
abbrev settled_event : ℕ → Text → Result (Option OrderEvent)
settled_event n tx = ok (
    some (record {
      tx_hash = some tx;
      user_address = some (codes "0xuser");
      chain = some base;
      collateral = some (codes "2000000");
      is_settled = some true;
      settled_at = none;
      settlement_tx_hash = some (codes "0xsettle");
      settlement_type = some (codes "cash");
      is_itm = some false;
    }))

abbrev accounts : Accounts
accounts = record { base_sepolia_vault_adapter = none; solana_devnet_vault_token_account = none }

world-UniqueKeys : UniqueKeys world.intents
world-UniqueKeys k present = elim (Bool-cases (text_eq (codes "key-1") k)) [
  | inl e ↦ rw e (omega arith)
  | inr e ↦ rw e (omega arith)
]

create_capital_intent-UniqueKeys_example :
    UniqueKeys (create_capital_intent env keyed_body world).1.intents
create_capital_intent-UniqueKeys_example =
    create_capital_intent-UniqueKeys env keyed_body world world-UniqueKeys

create_capital_intent-Linked_example :
    Outcome (Returned body world) (λ _. Raised body world) (create_capital_intent env body world)
create_capital_intent-Linked_example = create_capital_intent-Linked env body world

create_capital_intent-repeats_example :
    Outcome
      (λ r v. Same env world deployed_intent v × (r ≡ (to_response deployed_intent, false)))
      (λ _. Same env world deployed_intent)
      (create_capital_intent env keyed_body world)
unfolding text_eq
create_capital_intent-repeats_example =
    create_capital_intent-repeats env world deployed_intent keyed_body (codes "key-1") refl refl
      refl

reconcile_settled_positions-UniqueKeys_example :
    Keys
      (RotationKey env accounts settled_event (deployed_intents 10 world.intents))
      (keys world.intents)
      (reconcile_settled_positions env accounts settled_event 10 world).1.intents
reconcile_settled_positions-UniqueKeys_example =
    reconcile_settled_positions-UniqueKeys env accounts settled_event 10 world world-UniqueKeys

reconcile_settled_positions-Counted_example :
    Outcome
      (λ s v. (total s ≤ s.inspected) × (length v.intents ≡ 1 + s.waiting_created))
      (λ _ _. Unit)
      (reconcile_settled_positions env accounts settled_event 10 world)
reconcile_settled_positions-Counted_example =
    reconcile_settled_positions-Counted env accounts settled_event 10 world

sync_row_from_bridge-InStep_example :
    Outcome
      (InStep env deployed_intent (bridge_job_row (codes "job-1") body) world)
      (λ _. AsBefore env deployed_intent (bridge_job_row (codes "job-1") body) world)
      (sync_row_from_bridge env deployed_intent world)
unfolding text_eq bridge_job_row intent_row
sync_row_from_bridge-InStep_example =
    sync_row_from_bridge-InStep env deployed_intent (bridge_job_row (codes "job-1") body) world
      (codes "job-1") refl refl refl refl
