-- ===== src/Store.antt =====
-- The shared state: the tables `bridge_jobs` and `capital_movement_intents`, the relayer's queue,
-- and the calls made to the chains. Supabase, the chains and Circle's API are an environment that
-- answers each call by a result or an exception of its own choice; calls are numbered, so that two
-- calls with the same arguments may answer differently. `tick` counts them.
pub mod Laws
use options_protocol_backend.Prelude.{
  ℕ, ◌+◌, Bool, true, false, ◌||◌, Option, none, some, List, [], ◌∷◌, ◌++◌, ◌==◌, any,
  if◌then◌else◌, ◌≡◌,
}
use options_protocol_backend.Prelude.Text.{Text, text_eq}
use options_protocol_backend.Prelude.Int.{ℤ}
use options_protocol_backend.Exec.{
  Exn, raised, invalid_int, invalid_hex, external, Result, ok, err, Exec,
}
use options_protocol_backend.Bridge.{Chain, Job, BridgeFields, write_fields}
use options_protocol_backend.Capital.{Intent, IntentFields, write_intent}

-- A call to a chain. `minted`, `submitted` and `finalized` answered; `mint_raised` is a mint that
-- raised, and the chain may have carried it out all the same, since the wait for its receipt raises
-- too. A trade, a broadcast or a finalization that raised is not listed.
pub data Call : Type 0 where
  minted : Chain → Text → Text → Call
  mint_raised : Chain → Text → Call
  submitted : Chain → Text → Call
  finalized : Text → Text → ℤ → Call

-- One answer of Circle's attestation API.
pub data Poll : Type 0 where
  not_indexed : Poll
  http_error : Poll
  no_messages : Poll
  not_complete : Poll
  complete : Text → Text → Poll
  broken : Exn → Poll

pub record World : Type 0 where
  pub jobs : List Job
  pub intents : List Intent
  pub queue : List Text
  pub calls : List Call
  pub tick : ℕ

pub record Env : Type 0 where
  pub database : ℕ → Option Exn
  pub new_id : ℕ → Text
  pub poll : ℕ → ℕ → Text → Poll
  pub receive_message : ℕ → Chain → Text → Text → Result Text
  pub submit_trade : ℕ → Chain → Text → Result Text
  pub finalize_deposit : ℕ → Text → Text → ℤ → Result Text
  pub int_message : Text → Text
  pub hex_message : Text → Text

-- `str(exc)`; Python words the errors of `int` and `bytes.fromhex`.
pub str_exn : Env → Exn → Text
str_exn env (raised m) = m
str_exn env (external m) = m
str_exn env (invalid_int s) = env.int_message s
str_exn env (invalid_hex s) = env.hex_message s

abbrev pub Action : Type 0 → Type 0
Action A = Exec World A

abbrev pub next_tick : World → World
next_tick w = record w { tick = w.tick + 1 }

-- A call that either answers, and then changes the world by `f`, or raises.
abbrev pub answer : {A : Type 0} → Result A → (A → World → World) → Action A
answer (ok a) f w = (ok a, f a (next_tick w))
answer (err e) f w = (err e, next_tick w)

-- A call that is listed whether it answers or raises.
abbrev pub attempt : {A : Type 0} → Result A → (A → Call) → Call → Action A
attempt (ok a) f c w = (ok a, record (next_tick w) { calls = f a ∷ w.calls })
attempt (err e) f c w = (err e, record (next_tick w) { calls = c ∷ w.calls })

-- A query or an update: it answers unless the environment raises, and then it changes nothing.
abbrev pub on_database : {A : Type 0} → Option Exn → (World → A) → (World → World) → Action A
on_database none q f w = (ok (q w), f (next_tick w))
on_database (some e) q f w = (err e, next_tick w)

abbrev pub find_job : Text → List Job → Option Job
find_job k [] = none
find_job k (j ∷ js) = if text_eq j.id k then some j else find_job k js

abbrev pub update_rows : Text → BridgeFields → List Job → List Job
update_rows k f [] = []
update_rows k f (j ∷ js) = (if text_eq j.id k then write_fields f j else j) ∷ update_rows k f js

abbrev pub update_intent_rows : Text → IntentFields → List Intent → List Intent
update_intent_rows k f [] = []
update_intent_rows k f (i ∷ is) =
    (if text_eq i.id k then write_intent f i else i) ∷ update_intent_rows k f is

-- `o == k` of a nullable column, which is never true at null
abbrev pub column_eq : Option Text → Text → Bool
column_eq none k = false
column_eq (some s) k = text_eq s k

abbrev pub linked_intents : Text → List Intent → List Intent
linked_intents k [] = []
linked_intents k (i ∷ is) =
    let rest = linked_intents k is in if column_eq i.bridge_job_id k then i ∷ rest else rest

module _ (env : Env) where
  -- `client.table("bridge_jobs").select("*").eq("id", job_id)`, `_get_job`
  unfoldable pub get_job : Text → Action (Option Job)
  get_job k w = on_database (env.database w.tick) (λ v. find_job k v.jobs) (λ v. v) w

  unfoldable pub update_job_row : Text → BridgeFields → Action Unit
  update_job_row k f w =
      on_database (env.database w.tick) (λ _. tt) (λ v. record v { jobs = update_rows k f v.jobs })
        w

  unfoldable pub select_linked_intents : Text → Action (List Intent)
  select_linked_intents k w =
      on_database (env.database w.tick) (λ v. linked_intents k v.intents) (λ v. v) w

  unfoldable pub update_intent_row : Text → IntentFields → Action Unit
  update_intent_row k f w =
      on_database (env.database w.tick) (λ _. tt)
        (λ v. record v { intents = update_intent_rows k f v.intents }) w

  abbrev record_call : {A : Type 0} → (A → Call) → A → World → World
  record_call f a w = record w { calls = f a ∷ w.calls }

  -- `receive_message_base`, `receive_message_solana`, `receive_message_arc`
  unfoldable pub receive_message : Chain → Text → Text → Action Text
  receive_message c m a w =
      attempt (env.receive_message w.tick c m a) (λ tx. minted c m tx) (mint_raised c m) w

  -- `_submit_trade_base`, `_submit_trade_solana`
  unfoldable pub submit_trade : Chain → Text → Action Text
  submit_trade c signed w =
      answer (env.submit_trade w.tick c signed) (record_call (λ tx. submitted c tx)) w

  -- `finalize_arc_metavault_deposit`
  unfoldable pub finalize_deposit : Text → Text → ℤ → Action Text
  finalize_deposit intent_id to amount w =
      answer (env.finalize_deposit w.tick intent_id to amount)
        (record_call (λ tx. finalized intent_id to amount)) w

  unfoldable pub poll_once : ℕ → Text → Action Poll
  poll_once domain tx w = (ok (env.poll w.tick domain tx), next_tick w)

  -- `enqueue_job`
  unfoldable pub enqueue_job : Text → Action Unit
  enqueue_job k w = (ok tt, record w { queue = w.queue ++ k ∷ [] })
