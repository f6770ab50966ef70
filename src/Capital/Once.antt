-- ===== src/Capital/Once.antt =====
-- The creation of an intent in src/capital_intents/routes.py: keys are used once, and a job is created
-- at most once.
use mathlib.Core.Bool.{true≢false}
use mathlib.Core.Path.{subst}
use options_protocol_backend.Prelude.{
  ◌≡◌, refl, sym, true, not, ◌||◌, Option, none, some, List, [], ◌∷◌, if◌then◌else◌,
}
use options_protocol_backend.Prelude.Text.{Text, codes, text_eq, text_eq_iff, non_empty}
use options_protocol_backend.Exec.{Exn}
use options_protocol_backend.Exec.Post.{
  Post, Outcome-always, Post-pure, Post-raise, Post-if, Post-bind, Post-weaken,
}
use options_protocol_backend.Bridge.Routes.{http_error}
use options_protocol_backend.Capital.{Intent, IntentFields, CapitalIntentStatus}
use options_protocol_backend.Capital.Create.{
  CapitalIntentCreate, is_base_solana_move, is_base_to_arc_deposit, bridge_job_row,
}
use options_protocol_backend.Capital.Table.{find_key}
use options_protocol_backend.Capital.Keys.{
  count, UniqueKeys, count-missing, update-UniqueKeys, insert-UniqueKeys,
}
use options_protocol_backend.Capital.Rules.{
  On, Post-require, Post-select_intents, Post-insert_intent_row, Post-update_intent,
  Post-insert_job_row, Post-enqueue_job,
}
use options_protocol_backend.Capital.Routes.{
  intent_row, created_job, read_existing_by_idempotency, insert_intent, update_intent_fields,
  create_bridge_job, create_new, answer_existing, create_for_key, create_capital_intent,
}
use options_protocol_backend.Store.{Env, World, column_eq}

-- no intent has the key of the request
abbrev NewKey : Option Text → List Intent → Type 0
NewKey o is = (k : Text) → non_empty k ≡ true → column_eq o k ≡ true → count k is ≡ 0

none-NewKey : (is : List Intent) → NewKey none is
none-NewKey is k present same = absurd (true≢false (sym same))

empty-NewKey : (is : List Intent) → NewKey (some []) is
unfolding text_eq
empty-NewKey is [] present same = absurd (true≢false (sym present))
empty-NewKey is (c ∷ k) present same = absurd (true≢false (sym same))

some-NewKey : (key : Text) (is : List Intent) → count key is ≡ 0 → NewKey (some key) is
some-NewKey key is h k present same = subst (λ t. count t is ≡ 0) ((text_eq_iff key k).0 same) h

abbrev pub conflict : Exn
conflict =
    http_error 409 (codes "Bridge job already exists or could not be created for this intent")

abbrev pub first_status : CapitalIntentCreate → Option CapitalIntentStatus
first_status body = if body.create_bridge_job then some CapitalIntentStatus.pending else none

module _ (env : Env) where
  Post-update_intent_fields :
      (id : Text) (f : IntentFields)
      → Post
          (On UniqueKeys)
          (update_intent_fields env id f)
          (λ _. On UniqueKeys)
          (λ _. On UniqueKeys)
  unfolding update_intent_fields
  Post-update_intent_fields id f =
      Post-bind {I = λ _. On UniqueKeys}
        (Post-update_intent env _ UniqueKeys (λ _. UniqueKeys) id f
          (λ is h. update-UniqueKeys id f is h))
        (λ found. Post-require _ found (λ a e w h. h) (λ w h. h))

  Post-create_bridge_job :
      (body : CapitalIntentCreate)
      → Post (On UniqueKeys) (create_bridge_job env body) (λ _. On UniqueKeys) (λ _. On UniqueKeys)
  unfolding create_bridge_job
  Post-create_bridge_job body =
      Post-if (not (is_base_solana_move body || is_base_to_arc_deposit body)) _ _
        (λ _. Post-raise _ (λ w h. h))
        (λ _.
          Post-bind {I = λ _. On UniqueKeys}
            (Post-insert_job_row env conflict UniqueKeys (λ id. bridge_job_row id body))
            (λ job_id.
              Post-bind {I = λ _. On UniqueKeys} (Post-enqueue_job env UniqueKeys job_id)
                (λ _. Post-pure job_id (λ w h. h))))

  Post-create_new :
      (body : CapitalIntentCreate)
      → Post
          (On (λ is. UniqueKeys is × NewKey body.idempotency_key is))
          (create_new env body)
          (λ _. On UniqueKeys)
          (λ _. On UniqueKeys)
  unfolding create_new insert_intent intent_row
  Post-create_new body =
      Post-bind {I = λ _. On UniqueKeys}
        (Post-weaken
          (Post-insert_intent_row env _ (λ is. UniqueKeys is × NewKey body.idempotency_key is)
            (λ _. UniqueKeys) (intent_row body none (first_status body))
            (λ id is h. insert-UniqueKeys is (intent_row body none (first_status body) id) h.1 h.0))
          (λ w h. h) (λ _ w h. h) (λ _ w h. h.0))
        (λ row.
          Post-if body.create_bridge_job _ _
            (λ _. Post-bind {I = λ _. On UniqueKeys} (Post-create_bridge_job body) (λ job_id.
              Post-bind {I = λ _. On UniqueKeys}
                (Post-update_intent_fields row.id (created_job job_id))
                (λ linked. Post-pure _ (λ w h. h))))
            (λ _. Post-pure _ (λ w h. h)))

  Post-answer_existing :
      (body : CapitalIntentCreate) (key : Text) (found : Option Intent)
      → body.idempotency_key ≡ some key
      → Post
          (On (λ is. UniqueKeys is × (found ≡ find_key key is)))
          (answer_existing env body found)
          (λ _. On UniqueKeys)
          (λ _. On UniqueKeys)
  Post-answer_existing body key none e =
      Post-weaken (Post-create_new body)
        (λ w h. (
          h.0,
          subst (λ o. NewKey o w.intents) (sym e)
              (some-NewKey key w.intents (count-missing key w.intents (sym h.1))),
        ))
        (λ _ w h. h) (λ _ w h. h)
  Post-answer_existing body key (some i) e = Post-pure _ (λ w h. h.0)

  Post-create_for_key :
      (body : CapitalIntentCreate) (o : Option Text)
      → body.idempotency_key ≡ o
      → Post (On UniqueKeys) (create_for_key env body o) (λ _. On UniqueKeys) (λ _. On UniqueKeys)
  unfolding read_existing_by_idempotency
  Post-create_for_key body none e =
      Post-weaken (Post-create_new body)
        (λ w h. (h, subst (λ o. NewKey o w.intents) (sym e) (none-NewKey w.intents))) (λ _ w h. h)
        (λ _ w h. h)
  Post-create_for_key body (some []) e =
      Post-weaken (Post-create_new body)
        (λ w h. (h, subst (λ o. NewKey o w.intents) (sym e) (empty-NewKey w.intents))) (λ _ w h. h)
        (λ _ w h. h)
  Post-create_for_key body (some (c ∷ s)) e =
      Post-bind {I = λ found. On (λ is. UniqueKeys is × (found ≡ find_key (c ∷ s) is))}
        (Post-select_intents env _ UniqueKeys (find_key (c ∷ s)))
        (λ found. Post-answer_existing body (c ∷ s) found e)

  -- Where no idempotency key was that of two intents before a request for a new one, none is after
  -- it, whether the request returns or raises.
  pub create_capital_intent-UniqueKeys :
      (body : CapitalIntentCreate) (w : World)
      → UniqueKeys w.intents
      → UniqueKeys (create_capital_intent env body w).1.intents
  unfolding create_capital_intent
  create_capital_intent-UniqueKeys body w h =
      Outcome-always (On UniqueKeys) (create_capital_intent env body w)
        (Post.at (Post-create_for_key body body.idempotency_key refl) w h)
