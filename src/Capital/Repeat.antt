-- ===== src/Capital/Repeat.antt =====
-- src/capital_intents/routes.py: a second request under the idempotency key of the first.
use mathlib.Core.Option.{none-ne-some, some-injective}
use mathlib.Core.Bool.{true≢false}
use options_protocol_backend.Prelude.{
  ◌≡◌, refl, sym, ap, ◌∙◌, true, false, Option, none, some, [], ◌∷◌,
}
use options_protocol_backend.Prelude.Text.{Text, codes, non_empty}
use options_protocol_backend.Exec.{Exn}
use options_protocol_backend.Exec.Post.{Post, Outcome, Post-pure, Post-bind}
use options_protocol_backend.Bridge.Routes.{masked, http_error}
use options_protocol_backend.Capital.{Intent}
use options_protocol_backend.Capital.Create.{CapitalIntentCreate}
use options_protocol_backend.Capital.Table.{find_key, select_intents}
use options_protocol_backend.Capital.Rules.{on_database-Outcome}
use options_protocol_backend.Capital.Routes.{
  to_response, read_existing_by_idempotency, answer_existing, create_for_key, create_capital_intent,
}
use options_protocol_backend.Capital.Linked.{Untouched}
use options_protocol_backend.Store.{Env, World}

abbrev checking : Exn
checking = http_error 502 (codes "Could not check capital intent idempotency")

-- A request under a key that an intent has already.
module _ (env : Env) (w : World) (i : Intent) where
  abbrev pub Same : World → Type 0
  Same v = Untouched w v × (v.intents ≡ w.intents)

  Post-answer_known :
      (body : CapitalIntentCreate) (found : Option Intent)
      → Post
          (λ v. Same v × (found ≡ some i))
          (answer_existing env body found)
          (λ r v. Same v × (r ≡ (to_response i, false)))
          (λ _. Same)
  Post-answer_known body none = record { at = λ v h. absurd (none-ne-some _ h.1) }
  Post-answer_known body (some j) =
      Post-pure _ (λ v h. (h.0, ap (λ x. (to_response x, false)) (some-injective _ _ h.1)))

  Post-read_existing :
      (key : Text)
      → find_key key w.intents ≡ some i
      → Post
          (λ v. v ≡ w)
          (read_existing_by_idempotency env key)
          (λ found v. Same v × (found ≡ some i))
          (λ _. Same)
  unfolding read_existing_by_idempotency select_intents
  Post-read_existing key h = record {
    at = λ v e.
        let same : Same v = ((ap (λ x. x.jobs) e, ap (λ x. x.queue) e), ap (λ x. x.intents) e) in
        on_database-Outcome (λ found v. Same v × (found ≡ some i)) Same v
          (masked checking (env.database v.tick)) (λ x. find_key key x.intents) (λ x. x)
          (same, ap (λ x. find_key key x.intents) e ∙ h) same;
  }

  Post-repeat :
      (body : CapitalIntentCreate) (key : Text) (o : Option Text)
      → non_empty key ≡ true
      → o ≡ some key
      → find_key key w.intents ≡ some i
      → Post
          (λ v. v ≡ w)
          (create_for_key env body o)
          (λ r v. Same v × (r ≡ (to_response i, false)))
          (λ _. Same)
  Post-repeat body key none present e h = absurd (none-ne-some _ e)
  Post-repeat body key (some []) present e h =
      absurd (true≢false (sym (ap non_empty (some-injective _ _ e) ∙ present)))
  Post-repeat body key (some (c ∷ s)) present e h =
      Post-bind {I = λ found v. Same v × (found ≡ some i)}
        (Post-read_existing (c ∷ s) (ap (λ t. find_key t w.intents) (some-injective _ _ e) ∙ h))
        (Post-answer_known body)

  -- A request under a key that an intent has already changes neither the jobs nor the intents nor
  -- the queue, and answers with that intent and that no job was created, unless the query fails: also
  -- where the first request raised before it had created the bridge job it was to create.
  pub create_capital_intent-repeats :
      (body : CapitalIntentCreate) (key : Text)
      → body.idempotency_key ≡ some key
      → non_empty key ≡ true
      → find_key key w.intents ≡ some i
      → Outcome
          (λ r v. Same v × (r ≡ (to_response i, false)))
          (λ _. Same)
          (create_capital_intent env body w)
  unfolding create_capital_intent
  create_capital_intent-repeats body key e present h =
      Post.at (Post-repeat body key body.idempotency_key present e h) w refl
