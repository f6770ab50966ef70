-- ===== src/Capital/OnRead.antt =====
-- src/capital_intents/routes.py: the reading of an intent, which follows its bridge job.
use mathlib.Core.Option
use mathlib.Core.Option.{none-ne-some, some-injective}
use mathlib.Core.Bool.{true≢false}
use mathlib.Core.Path.{subst}
use options_protocol_backend.Prelude.{
  ◌≡◌, refl, sym, ap, ◌∙◌, true, false, Option, none, some, [], ◌∷◌,
}
use options_protocol_backend.Prelude.Text.{Text, non_empty}
use options_protocol_backend.Exec.Post.{
  Post, Outcome, Post-pure, Post-if, Post-bind, Post-weaken, Post-given,
}
use options_protocol_backend.Bridge.{Job}
use options_protocol_backend.Bridge.Routes.{masked}
use options_protocol_backend.Capital.{Intent, CapitalIntentStatus, write_intent, status_eq}
use options_protocol_backend.Capital.Table.{find_intent, update_intent, select_job}
use options_protocol_backend.Capital.Rules.{on_database-Outcome}
use options_protocol_backend.Capital.Routes.{
  row_updates, write_updates, sync_with, sync_linked, sync_row_from_bridge, load_bridge_status,
  updated_or,
}
use options_protocol_backend.Capital.Linked.{find_intent-update}
use options_protocol_backend.Capital.Sync.{bridge_status_to_intent_status, has_updates}
use options_protocol_backend.Store.{Env, World, find_job, update_intent_rows}
use options_protocol_backend.Capital.Due.{loading, syncing, keep_status, no_status, not_due}

module _ (env : Env) (row : Intent) (bridge : Job) (w : World) where
  abbrev pub next_status : CapitalIntentStatus
  next_status = bridge_status_to_intent_status bridge.status row.intent_type

  -- the row answered is the one in the table, and at its job's status
  abbrev pub InStep : Intent → World → Type 0
  InStep i v = (i.status ≡ next_status) × (find_intent row.id v.intents ≡ some i)

  abbrev pub AsBefore : World → Type 0
  AsBefore v = v.intents ≡ w.intents

  written :
      find_intent row.id w.intents ≡ some row
      → (v : World) → AsBefore v
      → find_intent row.id (update_intent_rows row.id (row_updates bridge row) v.intents)
        ≡ some (write_intent (row_updates bridge row) row)
  written h v e =
      find_intent-update row.id (row_updates bridge row) v.intents
      ∙ ap (Option.map (write_intent (row_updates bridge row))) (ap (find_intent row.id) e ∙ h)

  status_written : (write_intent (row_updates bridge row) row).status ≡ next_status
  unfolding row_updates
  status_written = keep_status row.status next_status (status_eq row.status next_status) refl

  status_kept : has_updates (row_updates bridge row) ≡ false → row.status ≡ next_status
  unfolding row_updates
  status_kept h =
      not_due row.status next_status (status_eq row.status next_status) refl
        (no_status (row_updates bridge row) h)

  Post-write_updates :
      find_intent row.id w.intents ≡ some row
      → Post AsBefore (write_updates env row (row_updates bridge row)) InStep (λ _. AsBefore)
  unfolding update_intent
  Post-write_updates h =
      Post-bind
        {I = λ o v.
          (o ≡ some (write_intent (row_updates bridge row) row))
          × (find_intent row.id v.intents ≡ some (write_intent (row_updates bridge row) row))}
        (record {
          at = λ v e.
              on_database-Outcome _ AsBefore v (masked syncing (env.database v.tick))
                (λ x.
                  find_intent row.id (update_intent_rows row.id (row_updates bridge row) x.intents))
                (λ x. record x {
                  intents = update_intent_rows row.id (row_updates bridge row) x.intents;
                })
                (written h v e, written h v e) e;
        })
        (λ o. Post-pure _ (λ v p.
          let e : updated_or (write_intent (row_updates bridge row) row) o
              ≡ write_intent (row_updates bridge row) row =
            ap (updated_or (write_intent (row_updates bridge row) row)) p.0 in
          (ap (λ i. i.status) e ∙ status_written, p.1 ∙ ap some (sym e))))

  Post-sync_with :
      (found : Option Job)
      → find_intent row.id w.intents ≡ some row
      → Post
          (λ v. AsBefore v × (found ≡ some bridge))
          (sync_with env row found)
          InStep
          (λ _. AsBefore)
  Post-sync_with none h = record { at = λ v e. absurd (none-ne-some _ e.1) }
  Post-sync_with (some b) h =
      Post-given (λ v e. some-injective _ _ e.1)
        (λ same.
          subst
            (λ j.
              Post (λ v. AsBefore v × (some b ≡ some bridge)) (sync_with env row (some j)) InStep
                (λ _. AsBefore))
            (sym same)
            (Post-if (has_updates (row_updates bridge row)) _ _
              (λ _. Post-weaken (Post-write_updates h) (λ v e. e.0) (λ _ v e. e) (λ _ v e. e))
              (λ none_due.
                Post-pure row (λ v e. (status_kept none_due, ap (find_intent row.id) e.0 ∙ h)))))

  Post-sync_linked :
      (key : Text) (o : Option Text)
      → non_empty key ≡ true
      → o ≡ some key
      → find_intent row.id w.intents ≡ some row
      → find_job key w.jobs ≡ some bridge
      → Post (λ v. v ≡ w) (sync_linked env row o) InStep (λ _. AsBefore)
  unfolding load_bridge_status select_job
  Post-sync_linked key none present e h j = absurd (none-ne-some _ e)
  Post-sync_linked key (some []) present e h j =
      absurd (true≢false (sym (ap non_empty (some-injective _ _ e) ∙ present)))
  Post-sync_linked key (some (c ∷ s)) present e h j =
      Post-bind {I = λ found v. AsBefore v × (found ≡ some bridge)}
        (record {
          at = λ v same.
              let before = ap (λ x. x.intents) same in
              on_database-Outcome (λ found u. AsBefore u × (found ≡ some bridge)) AsBefore v
                (masked loading (env.database v.tick)) (λ x. find_job (c ∷ s) x.jobs) (λ x. x)
                (
                  before,
                  ap (λ x. find_job (c ∷ s) x.jobs) same
                      ∙ (ap (λ t. find_job t w.jobs) (some-injective _ _ e) ∙ j),
                )
                before;
        })
        (λ found. Post-sync_with found h)

  -- Reading an intent that is linked to a bridge job answers with it at the status that the job's
  -- state stands for, and leaves that row in the table; where the query or the update fails, the
  -- intents are as they were.
  pub sync_row_from_bridge-InStep :
      (key : Text)
      → row.bridge_job_id ≡ some key
      → non_empty key ≡ true
      → find_intent row.id w.intents ≡ some row
      → find_job key w.jobs ≡ some bridge
      → Outcome InStep (λ _. AsBefore) (sync_row_from_bridge env row w)
  unfolding sync_row_from_bridge
  sync_row_from_bridge-InStep key e present h j =
      Post.at (Post-sync_linked key row.bridge_job_id present e h j) w refl
