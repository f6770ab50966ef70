-- ===== src/Capital/Linked.antt =====
-- The creation of an intent in src/capital_intents/routes.py: what it does to the table of the bridge
-- jobs and to the relayer's queue.
use mathlib.Core.Option
use mathlib.Core.Option.{none-ne-some, some-injective}
use options_protocol_backend.Prelude.{
  ◌≡◌, refl, sym, ap, ◌∙◌, ◌⊎◌, inl, inr, Bool, true, false, not, ◌||◌, Option, none, some, List,
  [], ◌∷◌, ◌++◌, Bool-cases,
}
use options_protocol_backend.Prelude.Text.{Text, text_eq}
use options_protocol_backend.Exec.{Exn}
use options_protocol_backend.Exec.Post.{
  Post, Outcome, Post-pure, Post-raise, Post-if, Post-bind, Post-weaken,
}
use options_protocol_backend.Bridge.{Job}
use options_protocol_backend.Bridge.Routes.{masked}
use options_protocol_backend.Capital.{Intent, IntentFields, CapitalIntentStatus, write_intent}
use options_protocol_backend.Capital.Create.{
  CapitalIntentCreate, is_base_solana_move, is_base_to_arc_deposit, bridge_job_row,
}
use options_protocol_backend.Capital.Table.{
  find_key, find_intent, select_intents, insert_intent_row, update_intent, insert_job_row,
}
use options_protocol_backend.Capital.Rules.{Post-require, on_database-Outcome}
use options_protocol_backend.Capital.Routes.{
  Response, to_response, intent_row, created_job, read_existing_by_idempotency, insert_intent,
  update_intent_fields, create_bridge_job, link_job, create_new, answer_existing, create_for_key,
  create_capital_intent,
}
use options_protocol_backend.Capital.Once.{conflict, first_status}
use options_protocol_backend.Store.{Env, World, update_intent_rows, enqueue_job}

-- A predicate on the jobs and the queue.
abbrev OnJobs : (List Job → List Text → Type 0) → World → Type 0
OnJobs P w = P w.jobs w.queue

pub find_intent-update :
    (k : Text) (f : IntentFields) (is : List Intent)
    → find_intent k (update_intent_rows k f is) ≡ Option.map (write_intent f) (find_intent k is)
find_intent-update k f [] = refl
find_intent-update k f (i ∷ is) = elim (Bool-cases (text_eq i.id k)) [
  | inl same ↦ rw (same, same)
  | inr other ↦ rw (other, other) (find_intent-update k f is)
]

-- The row shows the job and that it is on its way.
abbrev pub IsLinked : Text → Intent → Type 0
IsLinked job_id i = (i.status ≡ CapitalIntentStatus.bridging) × (i.bridge_job_id ≡ some job_id)

map-IsLinked :
    (job_id : Text) (o : Option Intent) (a : Intent)
    → Option.map (write_intent (created_job job_id)) o ≡ some a
    → IsLinked job_id a
map-IsLinked job_id none a h = absurd (none-ne-some _ h)
map-IsLinked job_id (some i) a h =
    let e = some-injective _ _ h in (ap (λ r. r.status) (sym e), ap (λ r. r.bridge_job_id) (sym e))

-- What a request that asks for a job, or for none, has done to jobs and queue.
abbrev pub Untouched : World → World → Type 0
Untouched w v = (v.jobs ≡ w.jobs) × (v.queue ≡ w.queue)

abbrev pub OneMore : CapitalIntentCreate → Text → World → World → Type 0
OneMore body job_id w v =
    (v.jobs ≡ w.jobs ++ bridge_job_row job_id body ∷ []) × (v.queue ≡ w.queue ++ job_id ∷ [])

abbrev pub Returned : CapitalIntentCreate → World → Response × Bool → World → Type 0
Returned body w (r, false) v = Untouched w v
Returned body w (r, true) v = (job_id : Text) × OneMore body job_id w v × IsLinked job_id r.0

abbrev pub Raised : CapitalIntentCreate → World → World → Type 0
Raised body w v = Untouched w v ⊎ ((job_id : Text) × OneMore body job_id w v)

module _ (env : Env) (P : List Job → List Text → Type 0) where
  Post-select :
      {A : Type 0} (e : Exn) (q : List Intent → A)
      → Post (OnJobs P) (select_intents env e q) (λ _. OnJobs P) (λ _. OnJobs P)
  unfolding select_intents
  Post-select e q = record {
    at = λ w h.
        on_database-Outcome (λ _. OnJobs P) (OnJobs P) w (masked e (env.database w.tick))
          (λ v. q v.intents) (λ v. v) h h;
  }

  Post-insert :
      (e : Exn) (row : Text → Intent)
      → Post (OnJobs P) (insert_intent_row env e row) (λ _. OnJobs P) (λ _. OnJobs P)
  unfolding insert_intent_row
  Post-insert e row = record {
    at = λ w h.
        on_database-Outcome (λ _. OnJobs P) (OnJobs P) w (masked e (env.database w.tick))
          (λ v. row (env.new_id w.tick))
          (λ v. record v { intents = v.intents ++ row (env.new_id w.tick) ∷ [] }) h h;
  }

  -- the update answers with a row that shows the job
  Post-update :
      (e : Exn) (k job_id : Text)
      → Post
          (OnJobs P)
          (update_intent env e k (created_job job_id))
          (λ o w. OnJobs P w × ((a : Intent) → o ≡ some a → IsLinked job_id a))
          (λ _. OnJobs P)
  unfolding update_intent
  Post-update e k job_id = record {
    at = λ w h.
        on_database-Outcome (λ o w. OnJobs P w × ((a : Intent) → o ≡ some a → IsLinked job_id a))
          (OnJobs P) w (masked e (env.database w.tick))
          (λ v. find_intent k (update_intent_rows k (created_job job_id) v.intents))
          (λ v. record v { intents = update_intent_rows k (created_job job_id) v.intents })
          (
            h,
            λ a found.
                map-IsLinked job_id (find_intent k w.intents) a
                  (sym (find_intent-update k (created_job job_id) w.intents) ∙ found),
          )
          h;
  }

  Post-insert_job :
      (Q : Text → List Job → List Text → Type 0) (row : Text → Job)
      → ((id : Text) (js : List Job) (q : List Text)
          → P js q
          → Q id (js ++ row id ∷ []) (q ++ id ∷ []))
      → Post
          (OnJobs P)
          (insert_job_row env conflict row)
          (λ id. OnJobs (λ js q. Q id js (q ++ id ∷ [])))
          (λ _. OnJobs P)
  unfolding insert_job_row
  Post-insert_job Q row step = record {
    at = λ w h.
        on_database-Outcome (λ id. OnJobs (λ js q. Q id js (q ++ id ∷ []))) (OnJobs P) w
          (masked conflict (env.database w.tick)) (λ v. env.new_id w.tick)
          (λ v. record v { jobs = v.jobs ++ row (env.new_id w.tick) ∷ [] })
          (step (env.new_id w.tick) w.jobs w.queue h) h;
  }

module _ (env : Env) (body : CapitalIntentCreate) (w : World) where
  abbrev Before : World → Type 0
  Before = Untouched w

  Post-create_bridge_job :
      Post Before (create_bridge_job env body) (λ job_id. OneMore body job_id w) (λ _. Before)
  unfolding create_bridge_job enqueue_job
  Post-create_bridge_job =
      Post-if (not (is_base_solana_move body || is_base_to_arc_deposit body)) _ _
        (λ _. Post-raise _ (λ v h. h))
        (λ _.
          Post-bind
            {I = λ id. OnJobs (λ js q.
              (js ≡ w.jobs ++ bridge_job_row id body ∷ []) × (q ++ id ∷ [] ≡ w.queue ++ id ∷ []))}
            (Post-insert_job env (λ js q. (js ≡ w.jobs) × (q ≡ w.queue))
              (λ id js q. (js ≡ w.jobs ++ bridge_job_row id body ∷ []) × (q ≡ w.queue ++ id ∷ []))
              (λ id. bridge_job_row id body)
              (λ id js q h.
                (ap (λ l. l ++ bridge_job_row id body ∷ []) h.0, ap (λ l. l ++ id ∷ []) h.1)))
            (λ job_id.
              Post-bind {I = λ _. OneMore body job_id w} (record { at = λ v h. h })
                (λ _. Post-pure job_id (λ v h. h))))

  Post-link :
      (row : Intent) → Post Before (link_job env body row) (Returned body w) (λ _. Raised body w)
  unfolding update_intent_fields to_response
  Post-link row =
      Post-bind {I = λ job_id. OneMore body job_id w}
        (Post-weaken Post-create_bridge_job (λ v h. h) (λ _ v h. h) (λ _ v h. inl h))
        (λ job_id.
          Post-bind {I = λ linked v. OneMore body job_id w v × IsLinked job_id linked}
            (Post-bind
              {I = λ o v. OneMore body job_id w v × ((a : Intent) → o ≡ some a → IsLinked job_id a)}
              (Post-weaken
                (Post-update env
                  (λ js q.
                    (js ≡ w.jobs ++ bridge_job_row job_id body ∷ []) × (q ≡ w.queue ++ job_id ∷ []))
                  _ row.id job_id)
                (λ v h. h) (λ _ v h. h) (λ _ v h. inr (job_id, h)))
              (λ found.
                Post-require _ found (λ a e v h. (h.0, h.1 a e)) (λ v h. inr (job_id, h.0))))
            (λ linked. Post-pure (to_response linked, true) (λ v h. (job_id, h.0, h.1))))

  Post-create_new : Post Before (create_new env body) (Returned body w) (λ _. Raised body w)
  unfolding create_new insert_intent to_response
  Post-create_new =
      Post-bind {I = λ _. Before}
        (Post-weaken
          (Post-insert env (λ js q. (js ≡ w.jobs) × (q ≡ w.queue)) _
            (intent_row body none (first_status body)))
          (λ v h. h) (λ _ v h. h) (λ _ v h. inl h))
        (λ row.
          Post-if body.create_bridge_job _ _ (λ _. Post-link row)
            (λ _. Post-pure (to_response row, false) (λ v h. h)))

  Post-answer_existing :
      (found : Option Intent)
      → Post Before (answer_existing env body found) (Returned body w) (λ _. Raised body w)
  Post-answer_existing none = Post-create_new
  Post-answer_existing (some i) = Post-pure (to_response i, false) (λ v h. h)

  Post-create_for_key :
      (o : Option Text)
      → Post Before (create_for_key env body o) (Returned body w) (λ _. Raised body w)
  unfolding read_existing_by_idempotency
  Post-create_for_key none = Post-create_new
  Post-create_for_key (some []) = Post-create_new
  Post-create_for_key (some (c ∷ s)) =
      Post-bind {I = λ _. Before}
        (Post-weaken (Post-select env (λ js q. (js ≡ w.jobs) × (q ≡ w.queue)) _ (find_key (c ∷ s)))
          (λ v h. h) (λ _ v h. h) (λ _ v h. inl h))
        Post-answer_existing

  -- A request that answers that a job was created has inserted exactly one job, the one of the
  -- request, has queued it last, and shows an intent that is linked to it and bridging; one that
  -- answers that none was created has left jobs and queue as they were. A request that raises has
  -- either left them too or inserted and queued that one job.
  pub create_capital_intent-Linked :
      Outcome (Returned body w) (λ _. Raised body w) (create_capital_intent env body w)
  unfolding create_capital_intent
  create_capital_intent-Linked = Post.at (Post-create_for_key body.idempotency_key) w (refl, refl)
