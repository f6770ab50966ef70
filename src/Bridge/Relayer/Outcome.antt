-- ===== src/Bridge/Relayer/Outcome.antt =====
-- How a run of `process_bridge_job` of src/bridge/relayer.py between Base and Solana ends while the
-- database answers.
use mathlib.Core.Option
use options_protocol_backend.Prelude.{
  ℕ, suc, ◌≤◌, true, false, ◌≡◌, refl, ap, ◌∙◌, inl, inr, Option, none, some, List, [], ◌∷◌, arith,
}
use options_protocol_backend.Prelude.Text.{Text}
use options_protocol_backend.Exec.{Exn, ok}
use options_protocol_backend.Exec.Post.{
  Post, Post-pure, Post-if, Post-bind, Post-try_except, Post-weaken, Post-given, Outcome-returns,
}
use options_protocol_backend.Bridge.{
  Chain, BridgeJobState, failed, mint_completed_trade_failed, Job, BridgeFields, no_fields,
  write_fields,
}
use options_protocol_backend.Store.{Env, World, Call, find_job}
use options_protocol_backend.Store.Laws.{View, Obs, Failing, Post-get_job, Post-receive_message}
use options_protocol_backend.Bridge.Relayer.{
  Settings, awaits_attestation, awaits_mint, is_trading, is_arc, is_done, update_job,
}
use options_protocol_backend.Bridge.Relayer.Rules.{
  Post-update_job, Post-recorded_attestation, Post-poll_attestation, Post-submit_trade_with_retries,
}
use options_protocol_backend.Bridge.Relayer.Process.{
  is_reservation, attest, obtain_attestation, mint, trade_signed, advance, on_failure, fail_state,
  preserved_tx, trade, process_found, process_bridge_job,
}
use options_protocol_backend.Bridge.Relayer.Mints.{
  has_mint, mint_calls, Unminted, Minted, Delivered, Consistent, Sent, Stopped, Never,
}

-- A write of a status between two views, where the database answers.
abbrev Sets : BridgeFields → View → View → Type 0
Sets f P Q = (o : Option Job) (c : List Call) → P o c → Q (Option.map (write_fields f) o) c

awaits_mint-is_done : (s : BridgeJobState) → awaits_mint s ≡ true → is_done s ≡ false
awaits_mint-is_done s h = ground arith

awaits_mint-is_trading : (s : BridgeJobState) → awaits_mint s ≡ true → is_trading s ≡ false
awaits_mint-is_trading s h = ground arith

module _ (config : Settings) (env : Env) (healthy : (n : ℕ) → env.database n ≡ none) (k : Text)
    (n : ℕ) where
  healthy-Failing : (R : View) (o : Option Job) (c : List Call) → Failing env R o c
  healthy-Failing R o c n e d = cc (healthy n)

  le_suc : (c : List Call) → mint_calls c ≤ n → suc (mint_calls c) ≤ suc n
  le_suc c b = omega (arith, b)

  later : (o : Option Job) (c : List Call) → Unminted n o c → Unminted (suc n) o c
  later o c (j, e, t, s, b) = (j, e, t, s, omega (arith, b))

  pub Post-write :
      (f : BridgeFields) (P Q R : View)
      → Sets f P Q
      → Post (Obs k P) (update_job env k f) (λ _. Obs k Q) (λ _. Obs k R)
  Post-write f P Q R h =
      Post-weaken (Post-update_job env k f Q R) (λ w p. (h _ _ p, healthy-Failing R _ _))
        (λ _ w q. q) (λ _ w r. r)

  deliver_now :
      (f : BridgeFields)
      → ((j : Job) → is_done (write_fields f j).status ≡ true)
      → Post
          (Obs k (Minted (suc n)))
          (update_job env k f)
          (λ _. Obs k (Delivered (suc n)))
          (λ _. Obs k (Stopped (suc n)))
  deliver_now f h =
      Post-write f (Minted (suc n)) (Delivered (suc n)) (Stopped (suc n))
        (λ o c (j, e, t, s, b). (write_fields f j, ap (Option.map (write_fields f)) e, h j, s, b))

  module _ (job : Job) where
    -- A write of a status that is not `trading`, before the mint.
    Post-write_unminted :
        (f : BridgeFields)
        → ((j : Job) → is_trading (write_fields f j).status ≡ false)
        → Post
            (Obs k (Unminted n))
            (update_job env k f)
            (λ _. Obs k (Unminted n))
            (λ _. Obs k (Stopped (suc n)))
    Post-write_unminted f h =
        Post-write f (Unminted n) (Unminted n) (Stopped (suc n))
          (λ o c (j, e, t, s, b). (write_fields f j, ap (Option.map (write_fields f)) e, h j, s, b))

    Post-attest :
        Post
          (Obs k (Unminted n))
          (attest config env k job)
          (λ _. Obs k (Unminted n))
          (λ _. Obs k (Stopped (suc n)))
    unfolding attest
    Post-attest = Post-bind (Post-write_unminted _ (λ j. refl)) (λ _.
        Post-bind
          (Post-weaken (Post-poll_attestation env k config _ _ (Unminted n)) (λ w h. h) (λ _ w h. h)
            (λ _ w h. inl (later (find_job k w.jobs) w.calls h)))
          (λ evidence. Post-bind (Post-write_unminted _ (λ j. refl)) (λ _. Post-pure _ (λ w h. h))))

    Post-obtain_attestation :
        Post
          (Obs k (Unminted n))
          (obtain_attestation config env k job)
          (λ _. Obs k (Unminted n))
          (λ _. Obs k (Stopped (suc n)))
    unfolding obtain_attestation
    Post-obtain_attestation =
        Post-if (awaits_attestation job.status) _ _ (λ _. Post-attest)
          (λ _.
            Post-weaken (Post-recorded_attestation env k config job (Unminted n)) (λ w h. h)
              (λ _ w h. h) (λ _ w h. inl (later (find_job k w.jobs) w.calls h)))

    Post-mint :
        (m a : Text)
        → awaits_mint job.status ≡ true
        → Post
            (Obs k (Unminted n))
            (mint config env k job m a)
            (λ _. Obs k (Minted (suc n)))
            (λ _. Obs k (Stopped (suc n)))
    unfolding mint
    Post-mint m a waits = rw waits (
        Post-bind
          (Post-weaken
            (Post-receive_message env k job.dest_chain m a (Sent (suc n)) (Unminted (suc n)))
            (λ w (j, e, t, s, b).
              ((λ tx. (j, e, refl, le_suc w.calls b)), (j, e, t, s, le_suc w.calls b)))
            (λ _ w h. h) (λ _ w h. inl h))
          (λ tx.
            Post-write _ (Sent (suc n)) (Minted (suc n)) (Stopped (suc n))
              (λ o c (j, e, s, b). (_, ap (Option.map _) e, refl, s, b))))

    Post-trade :
        (signed : Option Text)
        → Post
            (Obs k (Minted (suc n)))
            (trade_signed config env k job signed)
            (λ _. Obs k (Delivered (suc n)))
            (λ _. Obs k (Stopped (suc n)))
    unfolding trade_signed
    Post-trade none = deliver_now _ (λ j. refl)
    Post-trade (some []) = deliver_now _ (λ j. refl)
    Post-trade (some (c ∷ s)) =
        Post-bind
          (Post-weaken
            (Post-submit_trade_with_retries env k config (Minted (suc n)) (Minted (suc n))
              (λ ch tx o c h. h) job.dest_chain (c ∷ s))
            (λ w h. h) (λ _ w h. h) (λ _ w h. inr h))
          (λ tx. deliver_now _ (λ j. refl))

    Post-advance :
        awaits_mint job.status ≡ true
        → is_arc job.dest_chain ≡ false
        → Post
            (Obs k (Unminted n))
            (advance config env k job)
            (λ _. Obs k (Delivered (suc n)))
            (λ _. Obs k (Stopped (suc n)))
    unfolding advance trade
    Post-advance waits venue =
        Post-bind Post-obtain_attestation (λ (m, a).
          rw venue (Post-bind (Post-mint m a waits) (λ _. Post-trade job.signed_trade_tx)))

  fail_state-unminted :
      (found : Option Job) (j : Job)
      → found ≡ some j
      → is_trading j.status ≡ false
      → fail_state config env found ≡ failed
  fail_state-unminted found j e t = rw (e, t)

  fail_state-minted :
      (found : Option Job) (j : Job)
      → found ≡ some j
      → is_trading j.status ≡ true
      → fail_state config env found ≡ mint_completed_trade_failed
  fail_state-minted found j e t = rw (e, t)

  preserved_tx-venue :
      (dest : Chain) (found : Option Job)
      → is_arc dest ≡ false
      → preserved_tx config env dest found ≡ none
  preserved_tx-venue dest none venue = refl
  preserved_tx-venue dest (some j) venue = rw venue

  failure_fields-Consistent :
      (found : Option Job) (message : Text)
      → Sets
          (record no_fields {
            status = some (fail_state config env found);
            error_message = some (some message);
          })
          (λ o c. (found ≡ o) × (Stopped (suc n)) o c)
          (Consistent (suc n))
  failure_fields-Consistent found message o c (same, inl (j, e, t, s, b)) =
      (_, ap (Option.map _) e, inr (inl (fail_state-unminted found j (same ∙ e) t, s)), b)
  failure_fields-Consistent found message o c (same, inr (j, e, t, s, b)) =
      (_, ap (Option.map _) e, inr (inr (fail_state-minted found j (same ∙ e) t, s)), b)

  Post-on_failure :
      (dest : Chain) (e : Exn)
      → is_arc dest ≡ false
      → Post
          (Obs k (Stopped (suc n)))
          (on_failure config env k dest e)
          (λ _. Obs k (Consistent (suc n)))
          (λ _. Obs k Never)
  unfolding on_failure
  Post-on_failure dest e venue =
      Post-bind
        (Post-weaken (Post-get_job env k (Stopped (suc n)) Never)
          (λ w h. (h, healthy-Failing Never (find_job k w.jobs) w.calls)) (λ _ w h. h) (λ _ w h. h))
        (λ found. rw (preserved_tx-venue dest found venue) (
          Post-try_except
            (Post-write _ _ (Consistent (suc n)) Never (failure_fields-Consistent found _))
            (λ _. Post-pure tt (λ w h. absurd h))))

  module _ (job : Job) (waits : awaits_mint job.status ≡ true)
      (venue : is_arc job.dest_chain ≡ false) (burned : is_reservation job ≡ false) where
    Post-process_found :
        Post
          (Obs k (Unminted n))
          (process_found config env k (some job))
          (λ _. Obs k (Consistent (suc n)))
          (λ _. Obs k Never)
    Post-process_found =
        rw (awaits_mint-is_done job.status waits, venue, burned)
          (Post-try_except
            (Post-weaken (Post-advance job waits venue) (λ w h. h)
              (λ _ w (j, e, d, s, b). (j, e, inl (d, s), b)) (λ _ w h. h))
            (λ e. Post-on_failure job.dest_chain e venue))

    Post-process :
        Post
          (Obs k (λ o c. (o ≡ some job) × (Unminted n) o c))
          (process_bridge_job config env k)
          (λ _. Obs k (Consistent (suc n)))
          (λ _. Obs k Never)
    unfolding process_bridge_job
    Post-process =
        Post-bind
          (Post-weaken (Post-get_job env k (λ o c. (o ≡ some job) × (Unminted n) o c) Never)
            (λ w h. (h, healthy-Failing Never (find_job k w.jobs) w.calls)) (λ _ w h. h)
            (λ _ w h. h))
          (λ found.
            Post-given {F = found ≡ some job} (λ w (same, h). same ∙ h.0)
              (λ e. rw e (Post-weaken Post-process_found (λ w h. h.1.1) (λ _ w h. h) (λ _ w h. h))))

    -- While the database answers, a run on a job between Base and Solana that waits for its mint, is
    -- no reservation, and has no mint that answered returns, and makes at most one call for a mint:
    -- `n + 1` where at most `n` were made before it.
    -- It leaves the job in a final state which agrees with the answers of the destination chain: done
    -- where the mint answered, failed where no mint answered, or mint_completed_trade_failed where
    -- the mint answered. A mint that raised counts as a call without an answer; it may have been
    -- carried out.
    pub process-Consistent :
        (w : World)
        → find_job k w.jobs ≡ some job
        → has_mint w.calls ≡ false
        → mint_calls w.calls ≤ n
        → ((process_bridge_job config env k w).0 ≡ ok tt)
          × Obs k (Consistent (suc n)) (process_bridge_job config env k w).1
    process-Consistent w here fresh bound =
        Outcome-returns (Obs k (Consistent (suc n))) (process_bridge_job config env k w) (
          Post-process.at w
            (here, (job, here, awaits_mint-is_trading job.status waits, fresh, bound)))
