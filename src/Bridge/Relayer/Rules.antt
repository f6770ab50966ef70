-- ===== src/Bridge/Relayer/Rules.antt =====
-- Rules for the relayer's steps: what they do to the row of the job at hand and to the list of calls.
use mathlib.Core.Option
use options_protocol_backend.Prelude.{ℕ, zero, suc, ◌+◌, Option, none, some, List, [], ◌∷◌, ltb}
use options_protocol_backend.Prelude.Text.{Text}
use options_protocol_backend.Exec.{Exn}
use options_protocol_backend.Exec.Post.{
  Post, Post-pure, Post-raise, Post-if, Post-bind, Post-try_except, Post-for_each, Post-weaken,
}
use options_protocol_backend.Bridge.{Chain, Job, BridgeJobState, BridgeFields, write_fields}
use options_protocol_backend.Capital.{Intent}
use options_protocol_backend.Capital.Sync.{
  has_updates, intent_updates, sync_intent, sync_with_status,
}
use options_protocol_backend.Store.{Env, Action, Call, submitted, Poll}
use options_protocol_backend.Store.Laws.{
  View, Obs, Failing, Post-update_job_row, Post-select_linked_intents, Post-update_intent_row,
  Post-poll_once, Post-submit_trade,
}
use options_protocol_backend.Bridge.Relayer.{
  Settings, require_text, update_job, on_answer, timed_out, poll_loop, poll_attestation,
}
use options_protocol_backend.Bridge.Relayer.Process.{
  recorded_attestation, submit_attempts, trade_failed, submit_trade_with_retries,
}

module _ (env : Env) (k : Text) where
  Post-sync_intent :
      (f : BridgeFields) (s : BridgeJobState) (i : Intent) (P : View)
      → Post (Obs k P) (sync_intent env f s i) (λ _. Obs k P) (λ _. Obs k P)
  unfolding sync_intent
  Post-sync_intent f s i P =
      Post-if (has_updates (intent_updates f s i)) _ _
        (λ _. Post-update_intent_row env k i.id (intent_updates f s i) P)
        (λ _. Post-pure tt (λ w h. h))

  Post-sync_with_status :
      (f : BridgeFields) (s : Option BridgeJobState) (P : View)
      → Post (Obs k P) (sync_with_status env k f s) (λ _. Obs k P) (λ _. Obs k P)
  Post-sync_with_status f none P = Post-pure tt (λ w h. h)
  Post-sync_with_status f (some s) P =
      Post-bind (Post-select_linked_intents env k P)
        (λ is. Post-for_each is (sync_intent env f s) (λ i. Post-sync_intent f s i P))

  -- Where the row can be written, the update raises nothing: a failed synchronisation is caught.
  pub Post-update_job :
      (f : BridgeFields) (P R : View)
      → Post
          (Obs k (λ o c. P (Option.map (write_fields f) o) c × Failing env R o c))
          (update_job env k f)
          (λ _. Obs k P)
          (λ _. Obs k R)
  unfolding update_job
  Post-update_job f P R =
      Post-bind (Post-update_job_row env k f P R)
        (λ _. Post-try_except (Post-sync_with_status f f.status P) (λ _. Post-pure tt (λ w h. h)))

  pub Post-require_text :
      (t : Option Text) (e : Exn) (P : View)
      → Post (Obs k P) (require_text t e) (λ _. Obs k P) (λ _. Obs k P)
  Post-require_text none e P = Post-raise e (λ w h. h)
  Post-require_text (some []) e P = Post-raise e (λ w h. h)
  Post-require_text (some (c ∷ s)) e P = Post-pure (c ∷ s) (λ w h. h)

  module _ (config : Settings) where
    -- Reading the attestation from the row writes nothing.
    pub Post-recorded_attestation :
        (job : Job) (P : View)
        → Post (Obs k P) (recorded_attestation config env k job) (λ _. Obs k P) (λ _. Obs k P)
    unfolding recorded_attestation
    Post-recorded_attestation job P =
        Post-bind (Post-require_text job.attestation_message _ P) (λ m.
          Post-bind (Post-require_text job.attestation_signature _ P)
            (λ a. Post-pure (m, a) (λ w h. h)))

    Post-on_answer :
        (p : Poll) (again : Action (Text × Text)) (P : View)
        → Post (Obs k P) again (λ _. Obs k P) (λ _. Obs k P)
        → Post (Obs k P) (on_answer config env p again) (λ _. Obs k P) (λ _. Obs k P)
    unfolding on_answer
    Post-on_answer (Poll.complete m a) again P h = Post-pure (m, a) (λ w p. p)
    Post-on_answer (Poll.broken e) again P h = Post-raise e (λ w p. p)
    Post-on_answer _ again P h = h

    Post-poll_loop :
        (fuel elapsed domain : ℕ) (tx : Text) (P : View)
        → Post (Obs k P) (poll_loop config env fuel elapsed domain tx) (λ _. Obs k P) (λ _. Obs k P)
    unfolding poll_loop
    Post-poll_loop zero elapsed domain tx P = Post-raise (timed_out config env tx) (λ w p. p)
    Post-poll_loop (suc fuel) elapsed domain tx P =
        Post-if (ltb elapsed config.cctp_attestation_timeout) _ _
          (λ _. Post-bind (Post-poll_once env k domain tx P P) (λ p.
            Post-on_answer p _ P
              (Post-poll_loop fuel (elapsed + config.cctp_attestation_poll_interval) domain tx P)))
          (λ _. Post-raise (timed_out config env tx) (λ w p. p))

    -- Polling writes nothing.
    pub Post-poll_attestation :
        (domain : ℕ) (tx : Text) (P : View)
        → Post (Obs k P) (poll_attestation config env domain tx) (λ _. Obs k P) (λ _. Obs k P)
    unfolding poll_attestation
    Post-poll_attestation domain tx P =
        Post-poll_loop (suc config.cctp_attestation_timeout) 0 domain tx P

    module _ (P Q : View)
        (step : (ch : Chain) (tx : Text) (o : Option Job) (c : List Call)
          → P o c
          → Q o (submitted ch tx ∷ c)) where
      Post-submit_attempts :
          (n : ℕ) (ch : Chain) (signed : Text) (last : Exn)
          → Post
              (Obs k P)
              (submit_attempts config env n ch signed last)
              (λ _. Obs k Q)
              (λ _. Obs k P)
      unfolding submit_attempts
      Post-submit_attempts zero ch signed last = Post-raise last (λ w h. h)
      Post-submit_attempts (suc n) ch signed last =
          Post-try_except
            (Post-weaken (Post-submit_trade env k ch signed Q P)
              (λ w h. ((λ tx. step ch tx _ _ h), h)) (λ _ w h. h) (λ _ w h. h))
            (λ e. Post-submit_attempts n ch signed e)

      -- At most one attempt goes through.
      pub Post-submit_trade_with_retries :
          (ch : Chain) (signed : Text)
          → Post
              (Obs k P)
              (submit_trade_with_retries config env ch signed)
              (λ _. Obs k Q)
              (λ _. Obs k P)
      unfolding submit_trade_with_retries
      Post-submit_trade_with_retries ch signed =
          Post-try_except (Post-submit_attempts _ ch signed _)
            (λ last. Post-raise (trade_failed config env last) (λ w h. h))
