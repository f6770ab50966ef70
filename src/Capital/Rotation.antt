-- ===== src/Capital/Rotation.antt =====
-- The pass of src/capital_intents/reconcile.py: what its rounds do to the intents and to the counters.
use options_protocol_backend.Prelude.{
  ℕ, suc, ◌+◌, ◌≡◌, refl, sym, All, Option, none, some, List, [], ◌∷◌, ◌++◌, arith, length,
}
use options_protocol_backend.Prelude.Text.{Text, codes}
use mathlib.Core.Path.{subst}
use options_protocol_backend.Exec.{raised, Result, ok, pure, ◌>>◌}
use options_protocol_backend.Exec.Post.{
  Post, Post-pure, Post-if, Post-bind, Post-weaken, Post-given,
}
use options_protocol_backend.Capital.{Intent, CapitalIntentStatus}
use options_protocol_backend.Capital.Table.{find_key}
use options_protocol_backend.Capital.Keys.{count, count-missing}
use options_protocol_backend.Capital.Rules.{
  On, Post-require, Post-select_intents, Post-insert_intent_row, Post-update_intent,
}
use options_protocol_backend.Capital.Reconcile.{
  OrderEvent, Accounts, ReconcileSummary, is_settled, is_assigned, has_failed,
  rotation_idempotency_key, rotation_row, settled_fields, count_skipped, count_retryable,
  count_assigned, count_already, count_waiting, failure, select_event, read_order_event,
  update_intent_status, read_existing_rotation, insert_rotation, rotate_unless, rotate,
  reconcile_event, reconcile_intent, reconcile_all,
}
use options_protocol_backend.Store.{Env, Action}
use options_protocol_backend.Capital.Keyed.{
  Keyed, rotation_row-Keyed, Read, IsRotationKey, rotation_key_value, Steps, Result-Outcome,
}

module _ (env : Env) (accounts : Accounts) (order_event : ℕ → Text → Result (Option OrderEvent))
    (F : Intent → Type 0) (P : ℕ → ReconcileSummary → List Intent → Type 0)
    (R : List Intent → Type 0) (steps : Steps (IsRotationKey order_event F) P R) where
  -- what the query for the event of an intent has answered
  abbrev ReadOf : Intent → Option OrderEvent → Type 0
  ReadOf i none = Unit
  ReadOf i (some event) = Read order_event i event

  Post-select_event :
      (n : ℕ) (s : ReconcileSummary) (i : Intent) (tx : Text)
      → i.destination_tx ≡ some tx
      → Post
          (On (P n s))
          (select_event env accounts order_event tx)
          (λ event w. On (P n s) w × ReadOf i event)
          (λ _. On (P n s))
  unfolding select_event
  Post-select_event n s i tx e = record {
    at = λ w h.
        Result-Outcome (λ event v. On (P n s) v × ReadOf i event) (On (P n s))
          (order_event w.tick tx) (record w { tick = w.tick + 1 })
          (λ event r. (h, answered w.tick event r)) h;
  }
    where
      answered : (m : ℕ) (event : Option OrderEvent) → order_event m tx ≡ ok event → ReadOf i event
      answered m none r = tt
      answered m (some event) r = (m, tx, e, r)

  Post-read_order_event :
      (n : ℕ) (s : ReconcileSummary) (i : Intent) (tx : Option Text)
      → i.destination_tx ≡ tx
      → Post
          (On (P n s))
          (read_order_event env accounts order_event tx)
          (λ event w. On (P n s) w × ReadOf i event)
          (λ _. On (P n s))
  Post-read_order_event n s i none e = Post-pure none (λ w h. (h, tt))
  Post-read_order_event n s i (some []) e = Post-pure none (λ w h. (h, tt))
  Post-read_order_event n s i (some (c ∷ tx)) e = Post-select_event n s i (c ∷ tx) e

  Post-update_intent_status :
      (n : ℕ) (s : ReconcileSummary) (i : Intent) (status : CapitalIntentStatus) (o : Option Text)
      → Post
          (On (P n s))
          (update_intent_status env accounts order_event i status o)
          (λ _. On (P n s))
          (λ _. On (P n s))
  unfolding update_intent_status
  Post-update_intent_status n s i status o =
      Post-bind {I = λ _. On (P n s)}
        (Post-update_intent env (failure env accounts order_event) (P n s) (λ _. P n s) i.id
          (settled_fields status o) (λ is h. steps.updates n s i.id (settled_fields status o) is h))
        (λ found.
          Post-bind {I = λ _. On (P n s)}
            (Post-require (raised (codes "capital intent update returned no data: " ++ i.id)) found
              (λ a e w h. h) (λ w h. h))
            (λ _. Post-pure tt (λ w h. h)))

  -- one round from `n` to the next
  abbrev Round : ℕ → ReconcileSummary → Action ReconcileSummary → Type 0
  Round n s m = Post (On (P n s)) m (λ s'. On (P (suc n) s')) (λ _. On R)

  -- a round that ends by a mark
  Post-mark :
      (n : ℕ) (s s' : ReconcileSummary) (i : Intent) (status : CapitalIntentStatus)
      (o : Option Text)
      → ((is : List Intent) → P n s is → P (suc n) s' is)
      → Round n s (update_intent_status env accounts order_event i status o >> pure s')
  Post-mark n s s' i status o step =
      Post-bind {I = λ _. On (P n s)}
        (Post-weaken (Post-update_intent_status n s i status o) (λ w h. h) (λ _ w h. h)
          (λ _ w h. steps.raises n s w.intents h))
        (λ _. Post-pure s' (λ w h. step w.intents h))

  Post-insert_rotation :
      (n : ℕ) (s : ReconcileSummary) (i : Intent) (key : Text) (o : Option (Text → Intent))
      → Keyed key o
      → IsRotationKey order_event F key
      → Post
          (On (λ is. P n s is × (count key is ≡ 0)))
          (insert_rotation env accounts order_event i s o)
          (λ s'. On (P (suc n) s'))
          (λ _. On R)
  Post-insert_rotation n s i key none k origin = Post-pure s (λ w h. steps.skips n s w.intents h.0)
  Post-insert_rotation n s i key (some row) k origin =
      Post-bind {I = λ _. On (P (suc n) (count_waiting s))}
        (Post-weaken
          (Post-insert_intent_row env (failure env accounts order_event)
            (λ is. P n s is × (count key is ≡ 0)) (λ _. P (suc n) (count_waiting s)) row
            (λ id is h. steps.inserts n s key (row id) is (k id) origin h.1 h.0))
          (λ w h. h) (λ _ w h. h) (λ _ w h. steps.raises n s w.intents h.0))
        (λ _.
          Post-bind {I = λ _. On (P (suc n) (count_waiting s))}
            (Post-weaken
              (Post-update_intent_status (suc n) (count_waiting s) i CapitalIntentStatus.completed
                none)
              (λ w h. h) (λ _ w h. h) (λ _ w h. steps.raises (suc n) (count_waiting s) w.intents h))
            (λ _. Post-pure (count_waiting s) (λ w h. h)))

  Post-rotate_unless :
      (n : ℕ) (s : ReconcileSummary) (i : Intent) (event : OrderEvent) (found : Option Intent)
      → F i
      → Read order_event i event
      → Post
          (On (λ is. P n s is × (found ≡ find_key (rotation_idempotency_key i event) is)))
          (rotate_unless env accounts order_event i event s found)
          (λ s'. On (P (suc n) s'))
          (λ _. On R)
  Post-rotate_unless n s i event (some j) f r =
      Post-weaken
        (Post-mark n s (count_already s) i CapitalIntentStatus.completed none
          (λ is h. steps.repeated n s is h))
        (λ w h. h.0) (λ _ w h. h) (λ _ w h. h)
  Post-rotate_unless n s i event none f r =
      let key = rotation_idempotency_key i event in
      Post-weaken
        (Post-insert_rotation n s i key (rotation_row accounts i event key)
          (rotation_row-Keyed accounts i event key) (i, event, f, r, rotation_key_value i event))
        (λ w h. (h.0, count-missing key w.intents (sym h.1))) (λ _ w h. h) (λ _ w h. h)

  Post-rotate :
      (n : ℕ) (s : ReconcileSummary) (i : Intent) (event : OrderEvent)
      → F i
      → Read order_event i event
      → Round n s (rotate env accounts order_event i event s)
  unfolding rotate read_existing_rotation
  Post-rotate n s i event f r =
      Post-bind
        {I = λ found.
          On (λ is. P n s is × (found ≡ find_key (rotation_idempotency_key i event) is))}
        (Post-weaken
          (Post-select_intents env (failure env accounts order_event) (P n s)
            (find_key (rotation_idempotency_key i event)))
          (λ w h. h) (λ _ w h. h) (λ _ w h. steps.raises n s w.intents h))
        (λ found. Post-rotate_unless n s i event found f r)

  Post-reconcile_event :
      (n : ℕ) (s : ReconcileSummary) (i : Intent) (event : Option OrderEvent)
      → F i
      → ReadOf i event
      → Round n s (reconcile_event env accounts order_event i s event)
  Post-reconcile_event n s i none f r = Post-pure s (λ w h. steps.skips n s w.intents h)
  Post-reconcile_event n s i (some event) f r =
      Post-if (is_settled event) _ _
        (λ _.
          Post-if (has_failed event) _ _
            (λ _.
              Post-mark n s (count_retryable s) i CapitalIntentStatus.retryable
                (some (codes "Physical delivery failed after expiry"))
                (λ is h. steps.failed n s is h))
            (λ _.
              Post-if (is_assigned event) _ _
                (λ _.
                  Post-mark n s (count_assigned s) i CapitalIntentStatus.assigned_rotating none
                    (λ is h. steps.rotating n s is h))
                (λ _. Post-rotate n s i event f r)))
        (λ _. Post-pure (count_skipped s) (λ w h. steps.unsettled n s w.intents h))

  Post-reconcile_intent :
      (n : ℕ) (s : ReconcileSummary) (i : Intent)
      → F i
      → Round n s (reconcile_intent env accounts order_event i s)
  unfolding reconcile_intent
  Post-reconcile_intent n s i f =
      Post-bind {I = λ event w. On (P n s) w × ReadOf i event}
        (Post-weaken (Post-read_order_event n s i i.destination_tx refl) (λ w h. h) (λ _ w h. h)
          (λ _ w h. steps.raises n s w.intents h))
        (λ event.
          Post-given (λ w h. h.1)
            (λ r.
              Post-weaken (Post-reconcile_event n s i event f r) (λ w h. h.0) (λ _ w h. h)
                (λ _ w h. h)))

  pub Post-reconcile_all :
      (n : ℕ) (is : List Intent) (s : ReconcileSummary)
      → All F is
      → Post
          (On (P n s))
          (reconcile_all env accounts order_event is s)
          (λ s'. On (P (length is + n) s'))
          (λ _. On R)
  unfolding reconcile_all
  Post-reconcile_all n [] s f =
      let e : n ≡ 0 + n = omega arith in Post-pure s (λ w h. subst (λ m. P m s w.intents) e h)
  Post-reconcile_all n (i ∷ is) s (f, fs) =
      Post-bind {I = λ s'. On (P (suc n) s')} (Post-reconcile_intent n s i f) (λ s'.
        let e : length is + suc n ≡ suc (length is) + n = omega arith in
        Post-weaken (Post-reconcile_all (suc n) is s' fs) (λ w h. h)
          (λ s'' w h. subst (λ m. P m s'' w.intents) e h) (λ _ w h. h))
