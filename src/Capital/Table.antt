-- ===== src/Capital/Table.antt =====
-- src/capital_intents/routes.py: the queries that its handlers make, on the table of the intents, and
-- the `HTTPException` that each of them raises where the database fails.
use options_protocol_backend.Prelude.{Option, none, some, List, [], ◌∷◌, ◌++◌, if◌then◌else◌}
use options_protocol_backend.Prelude.Text.{Text, text_eq}
use options_protocol_backend.Exec.{Exn, pure, raise}
use options_protocol_backend.Bridge.{Job}
use options_protocol_backend.Bridge.Routes.{masked}
use options_protocol_backend.Capital.{Intent, IntentFields}
use options_protocol_backend.Store.{
  Env, Action, on_database, column_eq, find_job, update_intent_rows,
}

-- `.eq("id", k)`, the first row
abbrev pub find_intent : Text → List Intent → Option Intent
find_intent k [] = none
find_intent k (i ∷ is) = if text_eq i.id k then some i else find_intent k is

-- `.eq("idempotency_key", k)`, the first row
abbrev pub find_key : Text → List Intent → Option Intent
find_key k [] = none
find_key k (i ∷ is) = if column_eq i.idempotency_key k then some i else find_key k is

module _ (env : Env) where
  -- a query that raises `e` where the database fails
  unfoldable pub select_intents : {A : Type 0} → Exn → (List Intent → A) → Action A
  select_intents e q w = on_database (masked e (env.database w.tick)) (λ v. q v.intents) (λ v. v) w

  -- the row of an insert, with the id that the database chooses
  unfoldable pub insert_intent_row : Exn → (Text → Intent) → Action Intent
  insert_intent_row e row w =
      on_database (masked e (env.database w.tick)) (λ v. row (env.new_id w.tick))
        (λ v. record v { intents = v.intents ++ row (env.new_id w.tick) ∷ [] }) w

  -- an update answers with the first row that it wrote
  unfoldable pub update_intent : Exn → Text → IntentFields → Action (Option Intent)
  update_intent e k f w =
      on_database (masked e (env.database w.tick))
        (λ v. find_intent k (update_intent_rows k f v.intents))
        (λ v. record v { intents = update_intent_rows k f v.intents }) w

  unfoldable pub select_job : Exn → Text → Action (Option Job)
  select_job e k w =
      on_database (masked e (env.database w.tick)) (λ v. find_job k v.jobs) (λ v. v) w

  unfoldable pub insert_job_row : Exn → (Text → Job) → Action Text
  insert_job_row e row w =
      on_database (masked e (env.database w.tick)) (λ v. env.new_id w.tick)
        (λ v. record v { jobs = v.jobs ++ row (env.new_id w.tick) ∷ [] }) w

-- the row that a query must have found
abbrev pub require : {A : Type 0} → Exn → Option A → Action A
require e none = raise e
require e (some a) = pure a
