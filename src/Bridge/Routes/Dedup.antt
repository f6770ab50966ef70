-- ===== src/Bridge/Routes/Dedup.antt =====
-- Duplicate requests for a bridge job in src/bridge/routes.py, and what a refusal leaves behind.
use mathlib.Core.Bool.{true≢false}
use options_protocol_backend.Prelude.{
  Bool, true, false, ◌≡◌, refl, sym, ◌∙◌, ap, Option, none, some, List, [], ◌∷◌, ◌++◌, any,
  Bool-cases, inl, inr, ◌||◌,
}
use options_protocol_backend.Prelude.Text.{Text, text_eq, text_eq_refl}
use options_protocol_backend.Exec.{Exn, Result}
use options_protocol_backend.Exec.Post.{
  Post, Outcome, Post-pure, Post-raise, Post-if, Post-bind, Post-bind-lift, Post-weaken,
}
use options_protocol_backend.Bridge.{Job, BridgeFields}
use options_protocol_backend.Store.{Env, World, on_database, update_rows, enqueue_job, next_tick}
use options_protocol_backend.Bridge.Routes.{
  BridgeAndTradeRequest, find_burn, find_quote, is_reserved_for, burn_exists, new_job, masked,
  normalize_signed_trade_tx, query, refuse_existing, insert_job, reservation_fields, answer_update,
  update_reserved, update_reservation, finalize_bridge_reservation, insert_and_enqueue,
  create_or_finalize, create_for_quote, create_bridge_job,
}

abbrev pub is_found : Option Job → Bool
is_found none = false
is_found (some j) = true

-- A job has the burn.
abbrev pub has_burn : Text → List Job → Bool
has_burn tx js = is_found (find_burn tx js)

has_burn-append :
    (tx : Text) (js : List Job) (j : Job)
    → text_eq j.burn_tx_hash tx ≡ true
    → has_burn tx (js ++ j ∷ []) ≡ true
unfolding find_burn
has_burn-append tx [] j e = rw e refl
has_burn-append tx (x ∷ js) j e = elim (Bool-cases (text_eq x.burn_tx_hash tx)) [
  | inl same ↦ rw same refl
  | inr other ↦ rw other (has_burn-append tx js j e)
]

or_other : (a b : Bool) → a ≡ false → (a || b) ≡ true → b ≡ true
or_other true b e h = absurd (true≢false e)
or_other false b e h = h

has_burn-update_rows :
    (tx k : Text) (f : BridgeFields) (js : List Job)
    → f.burn_tx_hash ≡ some tx
    → any (λ j. text_eq j.id k) js ≡ true
    → has_burn tx (update_rows k f js) ≡ true
unfolding find_burn
has_burn-update_rows tx k f [] e h = absurd (true≢false (sym h))
has_burn-update_rows tx k f (x ∷ js) e h = elim (Bool-cases (text_eq x.id k)) [
  | inl same ↦ rw (same, e, text_eq_refl tx) refl
  | inr other ↦ elim (Bool-cases (text_eq x.burn_tx_hash tx)) [
    | inl here ↦ rw (other, here) refl
    | inr there ↦
        rw (other, there) (has_burn-update_rows tx k f js e (or_other (text_eq x.id k) _ other h))
  ]
]

module _ (env : Env) (cosign : Text → Result Text) (body : BridgeAndTradeRequest)
    (start : World) where
  -- the jobs and the queue as they were
  abbrev pub Same : World → Type 0
  Same w = (w.jobs ≡ start.jobs) × (w.queue ≡ start.queue)

  -- and no job has the burn
  abbrev Fresh : World → Type 0
  Fresh w = Same w × (has_burn body.burn_tx_hash start.jobs ≡ false)

  abbrev Written : World → Type 0
  Written w =
      (has_burn body.burn_tx_hash start.jobs ≡ false)
      × (has_burn body.burn_tx_hash w.jobs ≡ true)
      × (w.queue ≡ start.queue)

  abbrev pub Queued : Text → World → Type 0
  Queued id w =
      (has_burn body.burn_tx_hash start.jobs ≡ false)
      × (has_burn body.burn_tx_hash w.jobs ≡ true)
      × (w.queue ≡ start.queue ++ id ∷ [])

  database_step :
      {A : Type 0} (P : World → Type 0) (Q : A → World → Type 0) (o : Option Exn) (q : World → A)
      (f : World → World) (w : World)
      → (P w → Q (q w) (f (next_tick w)))
      → (P w → Same w)
      → P w
      → Outcome Q (λ _. Same) (on_database o q f w)
  database_step P Q none q f w h r p = h p
  database_step P Q (some e) q f w h r p = r p

  Post-query :
      {A : Type 0} (P : World → Type 0) (e : Exn) (q : World → A)
      → ((w : World) → P w → P (next_tick w))
      → ((w : World) → q w ≡ q (next_tick w))
      → ((w : World) → P w → Same w)
      → Post P (query env cosign e q) (λ r w. P w × (r ≡ q w)) (λ _. Same)
  Post-query P e q next same keep = record {
    at = λ w p.
        database_step P (λ r w. P w × (r ≡ q w)) (masked e (env.database w.tick)) q (λ v. v) w
          (λ p. (next w p, same w)) (keep w) p;
  }

  Post-insert_job :
      (signed : Option Text)
      → Post Fresh (insert_job env cosign body signed) (λ _. Written) (λ _. Same)
  unfolding insert_job
  Post-insert_job signed = record {
    at = λ w p.
        database_step Fresh (λ _. Written) (masked _ (env.database w.tick)) _ _ w
          (λ h. (
            h.1,
            has_burn-append body.burn_tx_hash w.jobs (new_job (env.new_id w.tick) body signed)
                (text_eq_refl body.burn_tx_hash),
            h.0.1,
          ))
          (λ h. h.0) p;
  }

  Post-enqueue : (id : Text) → Post Written (enqueue_job env id) (λ _. Queued id) (λ _. Same)
  unfolding enqueue_job
  Post-enqueue id = record { at = λ w h. (h.0, h.1, ap (λ q. q ++ id ∷ []) h.2) }

  Post-insert_and_enqueue :
      (signed : Option Text)
      → Post Fresh (insert_and_enqueue env cosign body signed) Queued (λ _. Same)
  unfolding insert_and_enqueue
  Post-insert_and_enqueue signed =
      Post-bind (Post-insert_job signed)
        (λ id. Post-bind (Post-enqueue id) (λ _. Post-pure id (λ w h. h)))

  answer_update-Written :
      (k : Text) (signed : Option Text) (b : Bool) (w : World)
      → any (λ j. text_eq j.id k) w.jobs ≡ b
      → Fresh w
      → Outcome
          (λ _. Written)
          (λ _. Same)
          (answer_update env cosign k (reservation_fields env cosign body signed) b w)
  answer_update-Written k signed true w e h = (
    h.1,
    has_burn-update_rows body.burn_tx_hash k (reservation_fields env cosign body signed) w.jobs refl
        e,
    h.0.1,
  )
  answer_update-Written k signed false w e h = h.0

  update_reserved-Written :
      (k : Text) (signed : Option Text) (o : Option Exn) (w : World)
      → Fresh w
      → Outcome
          (λ _. Written)
          (λ _. Same)
          (update_reserved env cosign k (reservation_fields env cosign body signed) o w)
  update_reserved-Written k signed none w h =
      answer_update-Written k signed (any (λ j. text_eq j.id k) w.jobs) (next_tick w) refl h
  update_reserved-Written k signed (some e) w h = h.0

  Post-update_reservation :
      (k : Text) (signed : Option Text)
      → Post Fresh
          (update_reservation env cosign k (reservation_fields env cosign body signed))
          (λ _. Written)
          (λ _. Same)
  unfolding update_reservation
  Post-update_reservation k signed = record {
    at = λ w h. update_reserved-Written k signed (masked _ (env.database w.tick)) w h;
  }

  Post-finalize :
      (reserved : Job)
      → Post Fresh (finalize_bridge_reservation env cosign reserved body) Queued (λ _. Same)
  unfolding finalize_bridge_reservation
  Post-finalize reserved =
      Post-bind-lift (normalize_signed_trade_tx env cosign body.dest_chain body.signed_trade_tx) _
        (λ signed e.
          Post-bind (Post-update_reservation reserved.id signed)
            (λ id. Post-bind (Post-enqueue id) (λ _. Post-pure id (λ w h. h))))
        (λ e w h. h.0)

  Post-create_or_finalize :
      (signed : Option Text) (q : Text) (o : Option Job)
      → Post Fresh (create_or_finalize env cosign body signed q o) Queued (λ _. Same)
  Post-create_or_finalize signed q none = Post-insert_and_enqueue signed
  Post-create_or_finalize signed q (some reserved) =
      Post-if (is_reserved_for body reserved) _ _ (λ _. Post-finalize reserved)
        (λ _. Post-raise _ (λ w h. h.0))

  Post-create_for_quote :
      (signed quote : Option Text)
      → Post Fresh (create_for_quote env cosign body signed quote) Queued (λ _. Same)
  Post-create_for_quote signed none = Post-insert_and_enqueue signed
  Post-create_for_quote signed (some []) = Post-insert_and_enqueue signed
  Post-create_for_quote signed (some (c ∷ q)) =
      Post-bind
        (Post-query Fresh _ (λ v. find_quote (c ∷ q) v.jobs) (λ w h. h) (λ w. refl) (λ w h. h.0))
        (λ o.
          Post-weaken (Post-create_or_finalize signed (c ∷ q) o) (λ w h. h.0) (λ _ w h. h)
            (λ _ w h. h))

  Post-refuse_existing :
      (o : Option Job)
      → Post
          (λ w. Same w × (o ≡ find_burn body.burn_tx_hash w.jobs))
          (refuse_existing env cosign (burn_exists body) o)
          (λ _. Fresh)
          (λ _. Same)
  Post-refuse_existing none =
      Post-pure tt
        (λ w h. (h.0, ap is_found (ap (find_burn body.burn_tx_hash) (sym h.0.0) ∙ sym h.1)))
  Post-refuse_existing (some j) = Post-raise _ (λ w h. h.0)

  pub Post-create_bridge_job : Post Same (create_bridge_job env cosign body) Queued (λ _. Same)
  unfolding create_bridge_job
  Post-create_bridge_job =
      Post-bind-lift {P = Same}
        (normalize_signed_trade_tx env cosign body.dest_chain body.signed_trade_tx) _
        (λ signed e.
          Post-bind
            (Post-query Same _ (λ v. find_burn body.burn_tx_hash v.jobs) (λ w h. h) (λ w. refl)
              (λ w h. h))
            (λ o.
              Post-bind (Post-refuse_existing o) (λ _. Post-create_for_quote signed body.quote_id)))
        (λ e w h. h)

  -- A request that is answered with a job's id was for a burn that no job had; now a job has it, and
  -- that id was added to the queue, once. Any other request, whatever the database and the check of
  -- the signed trade answer, leaves the jobs and the queue as they were.
  pub create_bridge_job-dedups :
      Outcome Queued (λ _. Same) (create_bridge_job env cosign body start)
  create_bridge_job-dedups = Post-create_bridge_job.at start (refl, refl)
