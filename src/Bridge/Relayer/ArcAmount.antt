-- ===== src/Bridge/Relayer/ArcAmount.antt =====
-- The amount that `_process_arc_deposit_job` of src/bridge/relayer.py finalizes a deposit for.
use options_protocol_backend.Prelude.{
  true, false, not, ◌&&◌, ◌≡◌, refl, sym, ap, ◌∙◌, ◌⊎◌, inl, Option, none, some, List, [], ◌∷◌,
}
use mathlib.Core.Path.{subst}
use mathlib.Core.Bool.{true≢false}
use options_protocol_backend.Prelude.Text.{Text, truthy}
use options_protocol_backend.Prelude.Int.{ℤ}
use options_protocol_backend.Prelude.Decimal.{str_int, parse_int-str_int}
use options_protocol_backend.Exec.{Exn, ok}
use options_protocol_backend.Exec.Post.{
  Post, Post-pure, Post-raise, Post-if, Post-bind, Post-bind-lift, Post-try_except, Post-weaken,
  Post-given, Outcome-always,
}
use options_protocol_backend.Bridge.{Chain, arc, Job, BridgeFields}
use options_protocol_backend.Bridge.Cctp.{python_int, parse_cctp_v2_burn_amounts}
use options_protocol_backend.Capital.{Intent}
use options_protocol_backend.Store.{
  Env, World, Action, Call, minted, mint_raised, submitted, finalized, find_job,
}
use options_protocol_backend.Store.Laws.{
  View, Obs, Post-get_job, Post-receive_message, Post-select_linked_intents, Post-finalize_deposit,
}
use options_protocol_backend.Bridge.Relayer.{
  Settings, awaits_attestation, awaits_mint, is_arc, is_done, arc_finalize_tx, update_job,
  require_text, require_intent, is_bytes32_hex,
}
use options_protocol_backend.Bridge.Relayer.Rules.{
  Post-update_job, Post-recorded_attestation, Post-poll_attestation, Post-require_text,
}
use options_protocol_backend.Bridge.Relayer.Arc.{
  Receipt, mint_on_arc, receive_on_arc, finalize_on_arc, require_bytes32, arc_deposit,
  process_arc_deposit_job,
}
use options_protocol_backend.Bridge.Relayer.Process.{
  is_reservation, attest, obtain_attestation, advance, on_failure, conclude, preserved_tx, guarded,
  process_found, process_bridge_job,
}

-- The message `m` was minted.
abbrev pub MintedMessage : Text → List Call → Type 0
MintedMessage m [] = ⊥
MintedMessage m (minted _ m' _ ∷ c) = (m' ≡ m) ⊎ MintedMessage m c
MintedMessage m (mint_raised _ _ ∷ c) = MintedMessage m c
MintedMessage m (submitted _ _ ∷ c) = MintedMessage m c
MintedMessage m (finalized _ _ _ ∷ c) = MintedMessage m c

abbrev pub NetOf : Text → Text → ℤ → Type 0
NetOf burn m n = (g : ℤ) × (f : ℤ) × (parse_cctp_v2_burn_amounts m (some burn) ≡ ok (g, f, n))

-- Every amount finalized on Arc is the net amount of a message that was minted before.
abbrev pub FinalizesNet : Text → List Call → Type 0
FinalizesNet burn [] = Unit
FinalizesNet burn (finalized _ _ n ∷ c) =
    ((m : Text) × MintedMessage m c × NetOf burn m n) × FinalizesNet burn c
FinalizesNet burn (minted _ _ _ ∷ c) = FinalizesNet burn c
FinalizesNet burn (mint_raised _ _ ∷ c) = FinalizesNet burn c
FinalizesNet burn (submitted _ _ ∷ c) = FinalizesNet burn c

python_int-str_int : (n : ℤ) → python_int (str_int n) ≡ ok n
python_int-str_int n = rw (parse_int-str_int n, python_int)

module _ (config : Settings) (env : Env) (k : Text) (job : Job) where
  abbrev Exact : View
  Exact o c = FinalizesNet job.burn_amount c

  -- after the mint: the receipt holds the net amount of the message
  abbrev Held : Receipt → View
  Held r o c =
      (m : Text) × (n : ℤ) × (r.net ≡ some (str_int n))
      × NetOf job.burn_amount m n
      × MintedMessage m c
      × FinalizesNet job.burn_amount c

  Post-row :
      (f : BridgeFields) (P : View)
      → ((o o' : Option Job) (c : List Call) → P o c → P o' c)
      → Post (Obs k P) (update_job env k f) (λ _. Obs k P) (λ _. Obs k P)
  Post-row f P same =
      Post-weaken (Post-update_job env k f P P) (λ w h. (same _ _ _ h, λ n e d. h)) (λ _ w h. h)
        (λ _ w h. h)

  Post-mint_on_arc :
      (m a : Text)
      → Post (Obs k Exact) (mint_on_arc env k job m a) (λ r. Obs k (Held r)) (λ _. Obs k Exact)
  unfolding mint_on_arc
  Post-mint_on_arc m a =
      Post-bind-lift (parse_cctp_v2_burn_amounts m (some job.burn_amount)) _
        (λ (g, f, n) parsed.
          Post-bind
            (Post-weaken
              (Post-receive_message env k arc m a (λ o c. MintedMessage m c × Exact o c) Exact)
              (λ w h. ((λ tx. (inl refl, h)), h)) (λ _ w h. h) (λ _ w h. h))
            (λ tx.
              Post-bind
                (Post-weaken (Post-row _ (λ o c. MintedMessage m c × Exact o c) (λ o o' c h. h))
                  (λ w h. h) (λ _ w h. h) (λ _ w h. h.1))
                (λ _. Post-pure _ (λ w h. (m, n, refl, (g, f, parsed), h.0, h.1)))))
        (λ e w h. h)

  Post-receive_on_arc :
      (m a : Text)
      → truthy job.mint_tx_hash ≡ false
      → Post
          (Obs k Exact)
          (receive_on_arc env k job job.status m a)
          (λ r. Obs k (Held r))
          (λ _. Obs k Exact)
  unfolding receive_on_arc
  Post-receive_on_arc m a none_yet =
      Post-if (awaits_mint job.status && not (truthy job.mint_tx_hash)) _ _
        (λ _. Post-mint_on_arc m a)
        (λ _.
          Post-if (truthy job.mint_tx_hash) _ _ (λ e. absurd (true≢false (sym e ∙ none_yet)))
            (λ _. Post-raise _ (λ w h. h)))

  Post-require_intent :
      (is : List Intent) (e : Exn) (P : View)
      → Post (Obs k P) (require_intent is e) (λ _. Obs k P) (λ _. Obs k P)
  Post-require_intent [] e P = Post-raise e (λ w h. h)
  Post-require_intent (i ∷ is) e P = Post-pure i (λ w h. h)

  Post-require_bytes32 :
      (t : Option Text) (P : View)
      → Post (Obs k P) (require_bytes32 k t) (λ _. Obs k P) (λ _. Obs k P)
  Post-require_bytes32 none P = Post-raise _ (λ w h. h)
  Post-require_bytes32 (some s) P =
      Post-if (is_bytes32_hex (some s)) _ _ (λ _. Post-pure s (λ w h. h))
        (λ _. Post-raise _ (λ w h. h))

  -- the required text is the one that was there
  Post-require_net :
      (t : Option Text) (e : Exn) (P : View)
      → Post (Obs k P) (require_text t e) (λ s. Obs k (λ o c. (t ≡ some s) × P o c)) (λ _. Obs k P)
  Post-require_net none e P = Post-raise e (λ w h. h)
  Post-require_net (some []) e P = Post-raise e (λ w h. h)
  Post-require_net (some (c ∷ s)) e P = Post-pure (c ∷ s) (λ w h. (refl, h))

  Held-Exact : (r : Receipt) (o : Option Job) (c : List Call) → Held r o c → Exact o c
  Held-Exact r o c (m, n, e, p, minted_m, exact) = exact

  amount_of : (s : Text) (n a : ℤ) → s ≡ str_int n → python_int s ≡ ok a → a ≡ n
  amount_of s n a e p =
      let read : ok a ≡ ok n = sym p ∙ (ap python_int e ∙ python_int-str_int n) in cc

  drop_receipt :
      {A : Type 0} {act : Action A} {Q : A → World → Type 0} (r : Receipt)
      → Post (Obs k (Held r)) act Q (λ _. Obs k (Held r))
      → Post (Obs k (Held r)) act Q (λ _. Obs k Exact)
  drop_receipt r p =
      Post-weaken p (λ w h. h) (λ _ w h. h) (λ _ w h. Held-Exact r (find_job k w.jobs) w.calls h)

  -- A finalize call for the amount that was read back from the receipt is exact.
  finalize-Exact :
      (r : Receipt) (i to s : Text) (a : ℤ)
      → python_int s ≡ ok a
      → (o : Option Job) (c : List Call) → (r.net ≡ some s) × Held r o c
      → Exact o (finalized i to a ∷ c)
  finalize-Exact r i to s a p o c (here, (m, n, e, net_of, minted_m, exact)) =
      let same : a ≡ n = amount_of s n a (cc) p in
      ((m, minted_m, subst (NetOf job.burn_amount m) (sym same) net_of), exact)

  Post-finalize_on_arc :
      (r : Receipt)
      → Post (Obs k (Held r)) (finalize_on_arc env k job r) (λ _. Obs k Exact) (λ _. Obs k Exact)
  unfolding finalize_on_arc
  Post-finalize_on_arc r =
      Post-bind (drop_receipt r (Post-select_linked_intents env k (Held r))) (λ is.
        Post-bind (drop_receipt r (Post-require_intent is _ (Held r))) (λ intent.
          Post-bind (drop_receipt r (Post-require_text env k _ _ (Held r))) (λ receiver.
            Post-bind (drop_receipt r (Post-require_bytes32 _ (Held r))) (λ intent_id.
              Post-bind (drop_receipt r (Post-require_net r.net _ (Held r))) (λ net.
                Post-bind-lift (python_int net) _
                  (λ amount parsed.
                    Post-bind
                      (Post-weaken
                        (Post-finalize_deposit env k intent_id receiver amount Exact Exact)
                        (λ w h. (
                          finalize-Exact r intent_id receiver net amount parsed (find_job k w.jobs)
                              w.calls h,
                          Held-Exact r (find_job k w.jobs) w.calls h.1,
                        ))
                        (λ _ w h. h) (λ _ w h. h))
                      (λ tx. Post-row _ Exact (λ o o' c h. h)))
                  (λ e w h. Held-Exact r (find_job k w.jobs) w.calls h.1))))))

  Post-arc_deposit :
      (m a : Text) (tx : Option Text)
      → truthy job.mint_tx_hash ≡ false
      → Post
          (Obs k Exact)
          (arc_deposit env k job job.status m a tx)
          (λ _. Obs k Exact)
          (λ _. Obs k Exact)
  unfolding arc_deposit
  Post-arc_deposit m a none none_yet =
      Post-bind (Post-receive_on_arc m a none_yet) (λ r. Post-finalize_on_arc r)
  Post-arc_deposit m a (some []) none_yet =
      Post-bind (Post-receive_on_arc m a none_yet) (λ r. Post-finalize_on_arc r)
  Post-arc_deposit m a (some (c ∷ s)) none_yet = Post-row _ Exact (λ o o' c h. h)

  Post-attest : Post (Obs k Exact) (attest config env k job) (λ _. Obs k Exact) (λ _. Obs k Exact)
  unfolding attest
  Post-attest = Post-bind (Post-row _ Exact (λ o o' c h. h)) (λ _.
      Post-bind (Post-poll_attestation env k config _ _ Exact)
        (λ evidence. Post-bind (Post-row _ Exact (λ o o' c h. h)) (λ _. Post-pure _ (λ w h. h))))

  Post-obtain_attestation :
      Post (Obs k Exact) (obtain_attestation config env k job) (λ _. Obs k Exact) (λ _. Obs k Exact)
  unfolding obtain_attestation
  Post-obtain_attestation =
      Post-if (awaits_attestation job.status) _ _ (λ _. Post-attest)
        (λ _. Post-recorded_attestation env k config job Exact)

  Post-advance :
      is_arc job.dest_chain ≡ true
      → truthy job.mint_tx_hash ≡ false
      → Post (Obs k Exact) (advance config env k job) (λ _. Obs k Exact) (λ _. Obs k Exact)
  unfolding advance process_arc_deposit_job
  Post-advance venue none_yet =
      Post-bind Post-obtain_attestation
        (λ (m, a). rw venue (Post-arc_deposit m a (arc_finalize_tx job) none_yet))

  Post-conclude :
      (e : Exn) (found : Option Job) (tx : Option Text)
      → Post (Obs k Exact) (conclude config env k e found tx) (λ _. Obs k Exact) (λ _. Obs k Exact)
  Post-conclude e found none =
      Post-try_except (Post-row _ Exact (λ o o' c h. h)) (λ _. Post-pure tt (λ w h. h))
  Post-conclude e found (some []) =
      Post-try_except (Post-row _ Exact (λ o o' c h. h)) (λ _. Post-pure tt (λ w h. h))
  Post-conclude e found (some (c ∷ s)) =
      Post-try_except (Post-row _ Exact (λ o o' c h. h)) (λ _. Post-pure tt (λ w h. h))

  Post-on_failure :
      (dest : Chain) (e : Exn)
      → Post (Obs k Exact) (on_failure config env k dest e) (λ _. Obs k Exact) (λ _. Obs k Exact)
  unfolding on_failure
  Post-on_failure dest e =
      Post-bind
        (Post-weaken (Post-get_job env k Exact Exact) (λ w h. (h, λ n e d. h)) (λ _ w h. h.1)
          (λ _ w h. h))
        (λ found. Post-conclude e found (preserved_tx config env dest found))

  module _ (venue : is_arc job.dest_chain ≡ true) (none_yet : truthy job.mint_tx_hash ≡ false) where
    Post-try :
        Post (Obs k Exact) (guarded config env k job none) (λ _. Obs k Exact) (λ _. Obs k Exact)
    Post-try =
        Post-if (is_reservation job) _ _ (λ _. Post-pure tt (λ w h. h))
          (λ _.
            Post-try_except (Post-advance venue none_yet) (λ e. Post-on_failure job.dest_chain e))

    Post-guarded :
        (tx : Option Text)
        → Post (Obs k Exact) (guarded config env k job tx) (λ _. Obs k Exact) (λ _. Obs k Exact)
    Post-guarded (some (c ∷ s)) = Post-row _ Exact (λ o o' c h. h)
    Post-guarded none = Post-try
    Post-guarded (some []) = Post-try

    Post-process_found :
        Post
          (Obs k Exact)
          (process_found config env k (some job))
          (λ _. Obs k Exact)
          (λ _. Obs k Exact)
    Post-process_found =
        Post-if (is_done job.status) _ _ (λ _. Post-pure tt (λ w h. h))
          (λ _. rw venue (Post-guarded (arc_finalize_tx job)))

    Post-process :
        Post
          (Obs k (λ o c. (o ≡ some job) × Exact o c))
          (process_bridge_job config env k)
          (λ _. Obs k Exact)
          (λ _. Obs k Exact)
    unfolding process_bridge_job
    Post-process =
        Post-bind
          (Post-weaken (Post-get_job env k (λ o c. (o ≡ some job) × Exact o c) Exact)
            (λ w h. (h, λ n e d. h.1)) (λ _ w h. h) (λ _ w h. h))
          (λ found.
            Post-given {F = found ≡ some job} (λ w (same, h). same ∙ h.0)
              (λ e. rw e (Post-weaken Post-process_found (λ w h. h.1.1) (λ _ w h. h) (λ _ w h. h))))

    -- Whatever the database and the chains answer, a run on a deposit to Arc that has no mint on
    -- record, and that starts with no calls, finalizes only the net amount (gross less Circle's fee)
    -- of a burn message that it has minted before.
    pub process-FinalizesNet :
        (w : World)
        → find_job k w.jobs ≡ some job
        → w.calls ≡ []
        → FinalizesNet job.burn_amount (process_bridge_job config env k w).1.calls
    process-FinalizesNet w here fresh =
        Outcome-always (Obs k Exact) (process_bridge_job config env k w)
          (Post-process.at w (here, rw fresh tt))
