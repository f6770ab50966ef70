-- ===== src/Capital/Reconciled.antt =====
-- The pass of src/capital_intents/reconcile.py as a whole: its counters and the idempotency keys.
use options_protocol_backend.Prelude.{
  ℕ, ◌+◌, ◌≤◌, ◌≡◌, refl, sym, ap, ◌∙◌, true, inl, inr, Bool-cases, map, All, Elem, All-Elem,
  Option, none, some, List, [], ◌∷◌, ◌++◌, arith, length, length-append,
}
use options_protocol_backend.Prelude.Text.{Text, text_eq, text_eq_iff}
use mathlib.Core.List.{append_assoc, append-nil, map-append}
use mathlib.Core.Path.{subst}
use mathlib.Core.Option.{none-ne-some, some-injective}
use options_protocol_backend.Exec.{Result}
use options_protocol_backend.Exec.Post.{
  Post, Outcome, Outcome-always, Post-bind, Post-weaken, Post-given,
}
use options_protocol_backend.Capital.{Intent, IntentFields}
use options_protocol_backend.Capital.Keys.{count, UniqueKeys, update-UniqueKeys, insert-UniqueKeys}
use options_protocol_backend.Capital.Rules.{On, Post-select_intents}
use options_protocol_backend.Capital.Reconcile.{
  OrderEvent, Accounts, ReconcileSummary, deployed_intents, failure, empty_summary,
  reconcile_settled_positions,
}
use options_protocol_backend.Capital.Keyed.{IsRotationKey, Steps}
use options_protocol_backend.Capital.Rotation.{Post-reconcile_all}
use options_protocol_backend.Store.{Env, World, column_eq, update_intent_rows}

abbrev pub total : ReconcileSummary → ℕ
total s =
    s.skipped_unsettled + (s.waiting_created + (s.already_reconciled + (s.assigned + s.retryable)))

length-update :
    (id : Text) (f : IntentFields) (is : List Intent)
    → length (update_intent_rows id f is) ≡ length is
length-update id f [] = refl
length-update id f (i ∷ is) = omega (arith, length-update id f is)

-- The counters after `n` rounds, from a table of `size` intents.
abbrev Counted : ℕ → ℕ → ℕ → ReconcileSummary → List Intent → Type 0
Counted size m n s is = (s.inspected ≡ m) × (total s ≤ n) × (length is ≡ size + s.waiting_created)

Counted-Steps : (O : Text → Type 0) (size m : ℕ) → Steps O (Counted size m) (λ _. Unit)
Counted-Steps O size m = record {
  updates = λ n s id f is h. (h.0, h.1, length-update id f is ∙ h.2);
  inserts = λ n s key i is e origin fresh h.
      (h.0, omega (arith, h.1), omega (arith, h.2, length-append is (i ∷ [])));
  skips = λ n s is h. (h.0, omega (arith, h.1), h.2);
  unsettled = λ n s is h. (h.0, omega (arith, h.1), h.2);
  failed = λ n s is h. (h.0, omega (arith, h.1), h.2);
  rotating = λ n s is h. (h.0, omega (arith, h.1), h.2);
  repeated = λ n s is h. (h.0, omega (arith, h.1), h.2);
  raises = λ n s is h. tt;
}

column_eq-same : (o : Option Text) (key k : Text) → o ≡ some key → column_eq o k ≡ true → key ≡ k
column_eq-same none key k e h = absurd (none-ne-some _ e)
column_eq-same (some s) key k e h = sym (some-injective _ _ e) ∙ (text_eq_iff s k).0 h

-- the keys of the table, in order
abbrev pub keys : List Intent → List (Option Text)
keys is = map (λ i. i.idempotency_key) is

keys-update :
    (id : Text) (f : IntentFields) (is : List Intent) → keys (update_intent_rows id f is) ≡ keys is
keys-update id f [] = refl
keys-update id f (i ∷ is) = elim (Bool-cases (text_eq i.id id)) [
  | inl e ↦ rw e (ap (λ l. i.idempotency_key ∷ l) (keys-update id f is))
  | inr e ↦ rw e (ap (λ l. i.idempotency_key ∷ l) (keys-update id f is))
]

keys-append :
    (is : List Intent) (i : Intent) → keys (is ++ i ∷ []) ≡ keys is ++ i.idempotency_key ∷ []
keys-append [] i = refl
keys-append (j ∷ is) i = ap (λ l. j.idempotency_key ∷ l) (keys-append is i)

append-append :
    (old : List (Option Text)) (new : List Text) (key : Text)
    → (old ++ map some new) ++ some key ∷ [] ≡ old ++ map some (new ++ key ∷ [])
append-append old new key =
    append_assoc old (map some new) (some key ∷ [])
    ∙ ap (λ l. old ++ l) (sym (map-append some new (key ∷ [])))

All-append :
    {A : Type 0} (F : A → Type 0) (xs : List A) (x : A) → All F xs → F x → All F (xs ++ x ∷ [])
All-append F [] x h f = (f, tt)
All-append F (y ∷ ys) x (g, h) f = (g, All-append F ys x h f)

All-always : {A : Type 0} (F : A → Type 0) → ((x : A) → F x) → (xs : List A) → All F xs
All-always F f [] = tt
All-always F f (x ∷ xs) = (f x, All-always F f xs)

-- The keys of the table are the old ones and, behind them, keys of which each is from `O`.
abbrev pub Grown : (Text → Type 0) → List (Option Text) → List Intent → Type 0
Grown O old is = (new : List Text) × (keys is ≡ old ++ map some new) × All O new

abbrev pub Keys : (Text → Type 0) → List (Option Text) → List Intent → Type 0
Keys O old is = UniqueKeys is × Grown O old is

Keys-Steps :
    (O : Text → Type 0) (old : List (Option Text)) → Steps O (λ _ _. Keys O old) (Keys O old)
Keys-Steps O old = record {
  updates = λ n s id f is (h, (new, e, o)).
      (update-UniqueKeys id f is h, (new, keys-update id f is ∙ e, o));
  inserts = λ n s key i is e origin fresh (h, (new, g, o)). (
    insert-UniqueKeys is i
        (λ k present same.
          subst (λ t. count t is ≡ 0) (column_eq-same i.idempotency_key key k e same) fresh)
        h,
    (
      new ++ key ∷ [],
      keys-append is i
          ∙ (ap (λ l. keys is ++ l ∷ []) e
              ∙ (ap (λ l. l ++ some key ∷ []) g ∙ append-append old new key)),
      All-append O new key o origin,
    ),
  );
  skips = λ n s is h. h;
  unsettled = λ n s is h. h;
  failed = λ n s is h. h;
  rotating = λ n s is h. h;
  repeated = λ n s is h. h;
  raises = λ n s is h. h;
}

module _ (env : Env) (accounts : Accounts)
    (order_event : ℕ → Text → Result (Option OrderEvent)) where
  -- The keys of rotations of these intents.
  abbrev pub RotationKey : List Intent → Text → Type 0
  RotationKey found = IsRotationKey order_event (λ i. Elem i found)

  -- Where no idempotency key was that of two intents before the pass, none is after it, whether it
  -- returns or raises, and the keys in the table are those from before, in order, followed by keys of
  -- which each is `rotation:<id>:<tx>`, with the id of an intent that the pass read as deployed and
  -- the transaction of the event that the query for that intent answered: the same settled position
  -- never gets a second rotation.
  pub reconcile_settled_positions-UniqueKeys :
      (limit : ℕ) (w : World)
      → UniqueKeys w.intents
      → Keys
          (RotationKey (deployed_intents limit w.intents))
          (keys w.intents)
          (reconcile_settled_positions env accounts order_event limit w).1.intents
  unfolding reconcile_settled_positions
  reconcile_settled_positions-UniqueKeys limit w h =
      let O = RotationKey (deployed_intents limit w.intents) in
      Outcome-always (On (Keys O (keys w.intents)))
        (reconcile_settled_positions env accounts order_event limit w)
        (Post.at
          (Post-bind
            {I = λ found. On (λ is. (is ≡ w.intents) × (found ≡ deployed_intents limit is))}
            (Post-weaken
              (Post-select_intents env (failure env accounts order_event) (λ is. is ≡ w.intents)
                (deployed_intents limit))
              (λ v u. u) (λ _ v u. u) (λ _ v u. unchanged O v.intents u))
            (λ found.
              Post-given {F = found ≡ deployed_intents limit w.intents}
                (λ v u. u.1 ∙ ap (deployed_intents limit) u.0)
                (λ e.
                  Post-weaken
                    (Post-reconcile_all env accounts order_event
                      (λ i. Elem i (deployed_intents limit w.intents))
                      (λ _ _. Keys O (keys w.intents)) (Keys O (keys w.intents))
                      (Keys-Steps O (keys w.intents)) 0 found
                      (empty_summary env accounts order_event (length found))
                      (subst (λ l. All (λ i. Elem i (deployed_intents limit w.intents)) l) (sym e)
                        (All-Elem (deployed_intents limit w.intents))))
                    (λ v u. unchanged O v.intents u.0) (λ _ v u. u) (λ _ v u. u))))
          w refl)
    where
      unchanged :
          (O : Text → Type 0) (is : List Intent) → is ≡ w.intents → Keys O (keys w.intents) is
      unchanged O is e =
          (subst UniqueKeys (sym e) h, ([], ap keys e ∙ sym (append-nil (keys w.intents)), tt))

  -- Where the pass returns, each intent inspected is counted at most once, and the table has grown by
  -- exactly the intents counted in `waiting_created`.
  pub reconcile_settled_positions-Counted :
      (limit : ℕ) (w : World)
      → Outcome
          (λ s v.
            (total s ≤ s.inspected) × (length v.intents ≡ length w.intents + s.waiting_created))
          (λ _ _. Unit)
          (reconcile_settled_positions env accounts order_event limit w)
  unfolding reconcile_settled_positions
  reconcile_settled_positions-Counted limit w =
      Post.at
        (Post-bind {I = λ _. On (λ is. length is ≡ length w.intents)}
          (Post-weaken
            (Post-select_intents env (failure env accounts order_event)
              (λ is. length is ≡ length w.intents) (deployed_intents limit))
            (λ v u. u) (λ _ v u. u.0) (λ _ v u. tt))
          (λ found.
            Post-weaken
              (Post-reconcile_all env accounts order_event (λ _. Unit)
                (Counted (length w.intents) (length found)) (λ _. Unit)
                (Counted-Steps _ (length w.intents) (length found)) 0 found
                (empty_summary env accounts order_event (length found))
                (All-always (λ _. Unit) (λ _. tt) found))
              (λ v u. (refl, omega arith, omega (arith, u)))
              (λ s v u. (omega (arith, u.0, u.1), u.2)) (λ _ v u. tt)))
        w refl
