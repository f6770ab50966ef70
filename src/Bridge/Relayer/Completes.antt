-- ===== src/Bridge/Relayer/Completes.antt =====
-- src/bridge/relayer.py: where every service answers, a job between Base and Solana comes to its end.
use mathlib.Core.Option.{none-ne-some, some-injective}
use mathlib.Core.Bool.{true≢false}
use mathlib.Core.Path.{subst}
use options_protocol_backend.Prelude.{
  ◌≤◌, true, false, ◌≡◌, refl, sym, ◌∙◌, inl, inr, Option, none, some, [], ◌∷◌, if◌then◌else◌,
}
use options_protocol_backend.Prelude.Text.{Text, truthy}
use options_protocol_backend.Exec.{Exn, ok}
use options_protocol_backend.Exec.Post.{
  Post, Outcome-returns, Post-pure, Post-if, Post-bind, Post-try_except, Post-weaken, Post-given,
}
use options_protocol_backend.Bridge.{Chain, completed, mint_completed, Job}
use options_protocol_backend.Bridge.Relayer.{
  Settings, is_arc, is_done, awaits_attestation, awaits_mint, arc_finalize_tx, require_text,
}
use options_protocol_backend.Bridge.Relayer.Process.{
  is_reservation, attest, recorded_attestation, obtain_attestation, mint_now, mint, trade_signed,
  trade, deliver, advance, guarded, process_found, process_bridge_job,
}
use options_protocol_backend.Bridge.Relayer.Healthy.{
  Healthy, Never, Present, Final, target, IsReady, never_fails, Post-progress, Post-finish,
  Post-poll_attestation, Post-receive, Post-submit_trade_with_retries,
}
use options_protocol_backend.Store.{Env, World, find_job}
use options_protocol_backend.Store.Laws.{Obs, Post-get_job}

not_arc : (c : Chain) (o : Option Text) → is_arc c ≡ false → (if is_arc c then o else none) ≡ none
not_arc c o e = rw e refl

module _ (config : Settings) (env : Env) (healthy : Healthy env) (k : Text) where
  Post-attest :
      (job : Job)
      → 1 ≤ config.cctp_attestation_timeout
      → Post (Obs k Present) (attest config env k job) (λ _. Obs k Present) (λ _. Obs k Never)
  unfolding attest
  Post-attest job wait = Post-bind (Post-progress config env healthy k _) (λ _.
      Post-bind {I = λ _. Obs k Present}
        (Post-poll_attestation config env healthy k wait _ job.burn_tx_hash)
        (λ (m, a).
          Post-bind (Post-progress config env healthy k _) (λ _. Post-pure (m, a) (λ w h. h))))

  Post-required :
      (o : Option Text) (e : Exn)
      → truthy o ≡ true
      → Post (Obs k Present) (require_text o e) (λ _. Obs k Present) (λ _. Obs k Never)
  Post-required none e h = absurd (true≢false (sym h))
  Post-required (some []) e h = absurd (true≢false (sym h))
  Post-required (some (c ∷ s)) e h = Post-pure (c ∷ s) (λ w p. p)

  Post-recorded :
      (job : Job)
      → truthy job.attestation_message ≡ true
      → truthy job.attestation_signature ≡ true
      → Post
          (Obs k Present)
          (recorded_attestation config env k job)
          (λ _. Obs k Present)
          (λ _. Obs k Never)
  unfolding recorded_attestation
  Post-recorded job message signature =
      Post-bind (Post-required job.attestation_message _ message) (λ m.
        Post-bind (Post-required job.attestation_signature _ signature)
          (λ a. Post-pure (m, a) (λ w h. h)))

  Post-obtain :
      (job : Job)
      → 1 ≤ config.cctp_attestation_timeout
      → IsReady job
      → Post
          (Obs k Present)
          (obtain_attestation config env k job)
          (λ _. Obs k Present)
          (λ _. Obs k Never)
  unfolding obtain_attestation
  Post-obtain job wait (inl awaits) =
      Post-if (awaits_attestation job.status) _ _ (λ _. Post-attest job wait)
        (λ e. absurd (true≢false (sym awaits ∙ e)))
  Post-obtain job wait (inr (message, signature)) =
      Post-if (awaits_attestation job.status) _ _ (λ _. Post-attest job wait)
        (λ _. Post-recorded job message signature)

  Post-mint :
      (job : Job) (m a : Text)
      → Post (Obs k Present) (mint config env k job m a) (λ _. Obs k Present) (λ _. Obs k Never)
  unfolding mint mint_now
  Post-mint job m a =
      Post-if (awaits_mint job.status) _ _
        (λ _.
          Post-bind (Post-receive config env healthy k job.dest_chain m a)
            (λ tx. Post-progress config env healthy k _))
        (λ _. Post-pure tt (λ w h. h))

  Post-trade_signed :
      (job : Job) (o : Option Text)
      → 1 ≤ config.cctp_trade_max_retries
      → Post
          (Obs k Present)
          (trade_signed config env k job o)
          (λ _. Obs k (Final (if truthy o then completed else mint_completed)))
          (λ _. Obs k Never)
  unfolding trade_signed
  Post-trade_signed job none retries = Post-finish config env healthy k _ mint_completed (λ j. refl)
  Post-trade_signed job (some []) retries =
      Post-finish config env healthy k _ mint_completed (λ j. refl)
  Post-trade_signed job (some (c ∷ s)) retries =
      Post-bind (Post-submit_trade_with_retries config env healthy k job.dest_chain (c ∷ s) retries)
        (λ tx. Post-finish config env healthy k _ completed (λ j. refl))

  Post-deliver :
      (job : Job) (evidence : Text × Text)
      → is_arc job.dest_chain ≡ false
      → 1 ≤ config.cctp_trade_max_retries
      → Post
          (Obs k Present)
          (deliver config env k job evidence)
          (λ _. Obs k (Final (target job)))
          (λ _. Obs k Never)
  unfolding trade
  Post-deliver job (m, a) venue retries =
      Post-if (is_arc job.dest_chain) _ _ (λ e. absurd (true≢false (sym e ∙ venue)))
        (λ _.
          Post-bind (Post-mint job m a) (λ _. Post-trade_signed job job.signed_trade_tx retries))

  Post-guarded :
      (job : Job) (o : Option Text)
      → o ≡ none
      → is_reservation job ≡ false
      → is_arc job.dest_chain ≡ false
      → IsReady job
      → 1 ≤ config.cctp_attestation_timeout
      → 1 ≤ config.cctp_trade_max_retries
      → Post
          (Obs k Present)
          (guarded config env k job o)
          (λ _. Obs k (Final (target job)))
          (λ _. Obs k Never)
  unfolding advance
  Post-guarded job (some s) e burned venue ready wait retries = absurd (none-ne-some _ (sym e))
  Post-guarded job none e burned venue ready wait retries =
      Post-if (is_reservation job) _ _ (λ r. absurd (true≢false (sym r ∙ burned)))
        (λ _.
          Post-try_except {E = λ _. Obs k Never}
            (Post-bind (Post-obtain job wait ready)
              (λ evidence. Post-deliver job evidence venue retries))
            (λ e. record { at = λ w never. absurd never }))

  Post-process_found :
      (job : Job) (found : Option Job)
      → is_done job.status ≡ false
      → is_reservation job ≡ false
      → is_arc job.dest_chain ≡ false
      → IsReady job
      → 1 ≤ config.cctp_attestation_timeout
      → 1 ≤ config.cctp_trade_max_retries
      → Post
          (λ w. Obs k Present w × (found ≡ some job))
          (process_found config env k found)
          (λ _. Obs k (Final (target job)))
          (λ _. Obs k Never)
  Post-process_found job none open_ burned venue ready wait retries = record {
    at = λ w h. absurd (none-ne-some _ h.1);
  }
  Post-process_found job (some j) open_ burned venue ready wait retries =
      Post-given (λ w h. some-injective _ _ h.1)
        (λ same.
          subst
            (λ x.
              Post (λ w. Obs k Present w × (some j ≡ some job))
                (process_found config env k (some x)) (λ _. Obs k (Final (target job)))
                (λ _. Obs k Never))
            (sym same)
            (Post-if (is_done job.status) _ _ (λ e. absurd (true≢false (sym e ∙ open_)))
              (λ _.
                Post-weaken
                  (Post-guarded job _ (not_arc job.dest_chain (arc_finalize_tx job) venue) burned
                    venue ready wait retries)
                  (λ w h. h.0) (λ _ w h. h) (λ _ w h. h))))

  -- Where the database, the attestation service and the chains answer, one run of the relayer brings a
  -- job between Base and Solana that is neither ended nor only reserved to its end, and raises nothing:
  -- to `completed` where it has a signed trade, else to `mint_completed`. A job past the attestation
  -- has it in its row, and the time-out and the number of attempts are at least 1.
  pub process-Final :
      (job : Job) (w : World)
      → find_job k w.jobs ≡ some job
      → is_done job.status ≡ false
      → is_reservation job ≡ false
      → is_arc job.dest_chain ≡ false
      → IsReady job
      → 1 ≤ config.cctp_attestation_timeout
      → 1 ≤ config.cctp_trade_max_retries
      → ((process_bridge_job config env k w).0 ≡ ok tt)
        × Obs k (Final (target job)) (process_bridge_job config env k w).1
  unfolding process_bridge_job
  process-Final job w found open_ burned venue ready wait retries =
      Outcome-returns (Obs k (Final (target job))) (process_bridge_job config env k w) (
        Post.at
          (Post-bind {I = λ o v. Obs k Present v × (o ≡ some job)}
            (Post-weaken (Post-get_job env k (λ o c. o ≡ some job) Never)
              (λ v h. (h, never_fails config env healthy k)) (λ o v h. ((job, h.1), h.0 ∙ h.1))
              (λ _ v h. h))
            (λ o. Post-process_found job o open_ burned venue ready wait retries))
          w found)
