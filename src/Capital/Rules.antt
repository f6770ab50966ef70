-- ===== src/Capital/Rules.antt =====
-- What the queries of src/capital_intents/routes.py and reconcile.py do to the table of the intents:
-- a rule for each of them.
use options_protocol_backend.Prelude.{◌≡◌, refl, Option, none, some, List, [], ◌∷◌, ◌++◌}
use options_protocol_backend.Prelude.Text.{Text}
use options_protocol_backend.Exec.{Exn}
use options_protocol_backend.Exec.Post.{Post, Outcome, Post-pure, Post-raise}
use options_protocol_backend.Bridge.{Job}
use options_protocol_backend.Bridge.Routes.{masked}
use options_protocol_backend.Capital.{Intent, IntentFields}
use options_protocol_backend.Capital.Table.{
  find_intent, select_intents, insert_intent_row, update_intent, select_job, insert_job_row,
  require,
}
use options_protocol_backend.Store.{
  Env, World, on_database, next_tick, update_intent_rows, enqueue_job, find_job,
}

-- A predicate on the intents.
abbrev pub On : (List Intent → Type 0) → World → Type 0
On P w = P w.intents

-- A query that must have found a row.
pub Post-require :
    {A : Type 0} {P : World → Type 0} {Q : A → World → Type 0} {R : Exn → World → Type 0} (e : Exn)
    (o : Option A)
    → ((a : A) → o ≡ some a → (w : World) → P w → Q a w)
    → ((w : World) → P w → R e w)
    → Post P (require e o) Q R
Post-require e none f r = Post-raise e r
Post-require e (some a) f r = Post-pure a (f a refl)

module _ {A : Type 0} (Q : A → World → Type 0) (R : World → Type 0) (w : World) where
  pub on_database-Outcome :
      (d : Option Exn) (q : World → A) (f : World → World)
      → Q (q w) (f (next_tick w))
      → R (next_tick w)
      → Outcome Q (λ _. R) (on_database d q f w)
  on_database-Outcome none q f h r = h
  on_database-Outcome (some e) q f h r = r

module _ (env : Env) (e : Exn) (P : List Intent → Type 0) where
  pub Post-select_intents :
      {A : Type 0} (q : List Intent → A)
      → Post (On P) (select_intents env e q) (λ a. On (λ is. P is × (a ≡ q is))) (λ _. On P)
  unfolding select_intents
  Post-select_intents q = record {
    at = λ w h.
        on_database-Outcome (λ a. On (λ is. P is × (a ≡ q is))) (On P) w
          (masked e (env.database w.tick)) (λ v. q v.intents) (λ v. v) (h, refl) h;
  }

  pub Post-insert_intent_row :
      (Q : Intent → List Intent → Type 0) (row : Text → Intent)
      → ((id : Text) (is : List Intent) → P is → Q (row id) (is ++ row id ∷ []))
      → Post (On P) (insert_intent_row env e row) (λ i. On (Q i)) (λ _. On P)
  unfolding insert_intent_row
  Post-insert_intent_row Q row step = record {
    at = λ w h.
        on_database-Outcome (λ i. On (Q i)) (On P) w (masked e (env.database w.tick))
          (λ v. row (env.new_id w.tick))
          (λ v. record v { intents = v.intents ++ row (env.new_id w.tick) ∷ [] })
          (step (env.new_id w.tick) w.intents h) h;
  }

  pub Post-update_intent :
      (Q : Option Intent → List Intent → Type 0) (k : Text) (f : IntentFields)
      → ((is : List Intent)
          → P is
          → Q (find_intent k (update_intent_rows k f is)) (update_intent_rows k f is))
      → Post (On P) (update_intent env e k f) (λ o. On (Q o)) (λ _. On P)
  unfolding update_intent
  Post-update_intent Q k f step = record {
    at = λ w h.
        on_database-Outcome (λ o. On (Q o)) (On P) w (masked e (env.database w.tick))
          (λ v. find_intent k (update_intent_rows k f v.intents))
          (λ v. record v { intents = update_intent_rows k f v.intents }) (step w.intents h) h;
  }

  pub Post-select_job : (k : Text) → Post (On P) (select_job env e k) (λ _. On P) (λ _. On P)
  unfolding select_job
  Post-select_job k = record {
    at = λ w h.
        on_database-Outcome (λ _. On P) (On P) w (masked e (env.database w.tick))
          (λ v. find_job k v.jobs) (λ v. v) h h;
  }

  pub Post-insert_job_row :
      (row : Text → Job) → Post (On P) (insert_job_row env e row) (λ _. On P) (λ _. On P)
  unfolding insert_job_row
  Post-insert_job_row row = record {
    at = λ w h.
        on_database-Outcome (λ _. On P) (On P) w (masked e (env.database w.tick))
          (λ v. env.new_id w.tick) (λ v. record v { jobs = v.jobs ++ row (env.new_id w.tick) ∷ [] })
          h h;
  }

module _ (env : Env) (P : List Intent → Type 0) where
  pub Post-enqueue_job : (k : Text) → Post (On P) (enqueue_job env k) (λ _. On P) (λ _. On P)
  unfolding enqueue_job
  Post-enqueue_job k = record { at = λ w h. h }
