-- ===== src/Settler/Confirmed.antt =====
-- Which vaults a settlement cycle of src/bots/expiry_settler.py delivers to.
use mathlib.Core.Bool.{true≢false}
use options_protocol_backend.Prelude.{
  ℕ, zero, suc, Bool, true, false, ◌||◌, ◌≡◌, refl, sym, ◌⊎◌, inl, inr, List, [], ◌∷◌, ◌++◌, map,
  All, All-map,
}
use options_protocol_backend.Prelude.Text.{Text}
use options_protocol_backend.Prelude.Int.{pos, leb_ℤ}
use options_protocol_backend.Exec.{Exn, Result, ok, err}
use options_protocol_backend.Exec.Post.{
  Post, Outcome, Post-pure, Post-raise, Post-bind, Post-try_except, Post-weaken,
}
use options_protocol_backend.Settler.{Position}
use options_protocol_backend.Settler.Moneyness.{key_eq}
use options_protocol_backend.Settler.Partition.{key_eq_refl}
use options_protocol_backend.Settler.State.{
  Vault, vault_of, Call, price_set, batch_settled, delivered, redeem_raised, World, Env, Action,
  send_batch,
}
use options_protocol_backend.Settler.Batches.{
  Split, check_settled, note_settled, sort_position, reconcile_settled_on_chain, mark_in_db,
  mark_batch_settled, Progress, add_eligible, after_reconcile, after_batch, settle_batches,
  mark_settled, mark_vaults, require_none,
}
use options_protocol_backend.Settler.Cycle.{has_key}
use options_protocol_backend.Settler.Steps.{
  On, Post-update_row, Post-read_vault_settled, Post-send_batch,
}

or_later : (a b : Bool) → b ≡ true → (a || b) ≡ true
or_later true b h = refl
or_later false b h = h

pub All-append :
    {A : Type 0} (P : A → Type 0) (xs ys : List A) → All P xs → All P ys → All P (xs ++ ys)
All-append P [] ys h g = g
All-append P (x ∷ xs) ys (p, h) g = (p, All-append P xs ys h g)

-- every position's vault is in the batch
pub listed_self : (ps : List Position) → All (λ p. has_key (vault_of p) (map vault_of ps) ≡ true) ps
listed_self [] = tt
listed_self (p ∷ ps) = (
  rw (key_eq_refl (vault_of p)) refl,
  All-map (λ q. has_key (vault_of q) (map vault_of ps) ≡ true)
      (λ q. has_key (vault_of q) (map vault_of (p ∷ ps)) ≡ true)
      (λ q h. or_later (key_eq (vault_of p) (vault_of q)) _ h) ps (listed_self ps),
)

-- A batch with the vault went through.
abbrev pub SettledIn : Vault → List Call → Type 0
SettledIn k [] = ⊥
SettledIn k (batch_settled ks ∷ cs) = (has_key k ks ≡ true) ⊎ SettledIn k cs
SettledIn k (price_set x y ∷ cs) = SettledIn k cs
SettledIn k (delivered x y ∷ cs) = SettledIn k cs
SettledIn k (redeem_raised x y ∷ cs) = SettledIn k cs

module _ (env : Env) (recovery : List Position) where
  -- The vault is settled on the chain: a batch with it went through, the chain said so, or it is
  -- one of the positions that the database has as settled.
  abbrev pub Confirmed : Vault → List Call → Type 0
  Confirmed k cs =
      SettledIn k cs
      ⊎ (((n : ℕ) × (env.vault_settled n k ≡ ok true)) ⊎ (has_key k (map vault_of recovery) ≡ true))

  -- Each delivery, whether the call answered or raised, is for a vault that was settled on the chain before, at a positive parameter.
  abbrev pub DeliversSettled : List Call → Type 0
  DeliversSettled [] = Unit
  DeliversSettled (delivered k s ∷ cs) =
      Confirmed k cs × (leb_ℤ s (pos 0) ≡ false) × DeliversSettled cs
  DeliversSettled (redeem_raised k s ∷ cs) =
      Confirmed k cs × (leb_ℤ s (pos 0) ≡ false) × DeliversSettled cs
  DeliversSettled (batch_settled ks ∷ cs) = DeliversSettled cs
  DeliversSettled (price_set k p ∷ cs) = DeliversSettled cs

  Confirmed-later : (k : Vault) (c : Call) (cs : List Call) → Confirmed k cs → Confirmed k (c ∷ cs)
  Confirmed-later k (batch_settled ks) cs (inl h) = inl (inr h)
  Confirmed-later k (price_set x y) cs (inl h) = inl h
  Confirmed-later k (delivered x y) cs (inl h) = inl h
  Confirmed-later k (redeem_raised x y) cs (inl h) = inl h
  Confirmed-later k c cs (inr h) = inr h

  abbrev pub AllConfirmed : List Position → List Call → Type 0
  AllConfirmed ps cs = All (λ p. Confirmed (vault_of p) cs) ps

  pub AllConfirmed-later :
      (ps : List Position) (c : Call) (cs : List Call)
      → AllConfirmed ps cs
      → AllConfirmed ps (c ∷ cs)
  AllConfirmed-later ps c cs =
      All-map (λ p. Confirmed (vault_of p) cs) (λ p. Confirmed (vault_of p) (c ∷ cs))
        (λ p h. Confirmed-later (vault_of p) c cs h) ps

  -- the invariant of phase 1, with the settled positions
  abbrev pub Good : List Position → List Call → Type 0
  Good settled cs = DeliversSettled cs × AllConfirmed settled cs

  Good-batch :
      (settled batch : List Position) (cs : List Call)
      → Good settled cs
      → Good (settled ++ batch) (batch_settled (map vault_of batch) ∷ cs)
  Good-batch settled batch cs (d, a) = (
    d,
    All-append _ settled batch
        (AllConfirmed-later settled (batch_settled (map vault_of batch)) cs a)
        (All-map (λ p. has_key (vault_of p) (map vault_of batch) ≡ true)
          (λ p. Confirmed (vault_of p) (batch_settled (map vault_of batch) ∷ cs))
          (λ p h. inl (inl h)) batch (listed_self batch)),
  )

  -- what the reconciliation returns as settled
  abbrev pub Known : Position → Type 0
  Known p = (n : ℕ) × (env.vault_settled n (vault_of p) ≡ ok true)

  module _ (P : List Call → Type 0) where
    Post-check_settled :
        (p : Position)
        → Post (On P) (check_settled env p) (λ b w. On P w × (b ≡ true → Known p)) (λ _. On P)
    Post-check_settled p =
        Post-try_except {E = λ _. On P}
          (Post-weaken (Post-read_vault_settled env P (vault_of p)) (λ w h. h)
            (λ b w (h, (n, e)). (h, λ t. (n, rw (← t) e))) (λ _ w h. h))
          (λ e. Post-pure false (λ w h. (h, λ t. absurd (true≢false (sym t)))))

    Post-note_settled : (p : Position) → Post (On P) (note_settled env p) (λ _. On P) (λ _. On P)
    unfolding note_settled
    Post-note_settled p =
        Post-try_except {E = λ _. On P}
          (Post-bind (Post-update_row env P (vault_of p) _) (λ _. Post-pure tt (λ w h. h)))
          (λ e. Post-pure tt (λ w h. h))

    Post-sort_position :
        (p : Position) (b : Bool) (rest : Action Split)
        → Post (On P) rest (λ x w. On P w × All Known x.1) (λ _. On P)
        → (b ≡ true → Known p)
        → Post (On P) (sort_position env p b rest) (λ x w. On P w × All Known x.1) (λ _. On P)
    Post-sort_position p false rest h known =
        Post-bind h (λ (unsettled, settled). Post-pure (p ∷ unsettled, settled) (λ w g. g))
    Post-sort_position p true rest h known = Post-bind (Post-note_settled p) (λ _.
        Post-bind h (λ (unsettled, settled).
          Post-pure (unsettled, p ∷ settled) (λ w g. (g.0, (known refl, g.1)))))

    pub Post-reconcile_settled_on_chain :
        (ps : List Position)
        → Post
            (On P)
            (reconcile_settled_on_chain env ps)
            (λ x w. On P w × All Known x.1)
            (λ _. On P)
    unfolding reconcile_settled_on_chain
    Post-reconcile_settled_on_chain [] = Post-pure ([], []) (λ w h. (h, tt))
    Post-reconcile_settled_on_chain (p ∷ ps) = Post-bind (Post-check_settled p) (λ b. record {
      at = λ w h.
          (Post-sort_position p b (reconcile_settled_on_chain env ps)
              (Post-reconcile_settled_on_chain ps) h.1).at
            w h.0;
    })

    Post-mark_settled :
        (tx : Text) (k : Vault) → Post (On P) (mark_settled env tx k) (λ _. On P) (λ _. On P)
    Post-mark_settled tx k =
        Post-try_except {E = λ _. On P} (Post-update_row env P k _)
          (λ e. Post-pure false (λ w h. h))

    Post-mark_vaults :
        (tx : Text) (ks : List Vault) → Post (On P) (mark_vaults env tx ks) (λ _. On P) (λ _. On P)
    unfolding mark_vaults
    Post-mark_vaults tx [] = Post-pure 0 (λ w h. h)
    Post-mark_vaults tx (k ∷ ks) =
        Post-bind (Post-mark_settled tx k)
          (λ b. Post-bind (Post-mark_vaults tx ks) (λ n. Post-pure _ (λ w h. h)))

    Post-require_none : (n : ℕ) → Post (On P) (require_none env n) (λ _. On P) (λ _. On P)
    Post-require_none zero = Post-pure tt (λ w h. h)
    Post-require_none (suc n) = Post-raise _ (λ w h. h)

    Post-mark_in_db :
        (tx : Text) (ks : List Vault) → Post (On P) (mark_in_db env tx ks) (λ _. On P) (λ _. On P)
    unfolding mark_batch_settled
    Post-mark_in_db tx ks =
        Post-try_except {E = λ _. On P}
          (Post-bind (Post-bind (Post-mark_vaults tx ks) (λ n. Post-require_none n))
            (λ _. Post-pure true (λ w h. h)))
          (λ e. Post-pure false (λ w h. h))

  -- what holds of the progress, whatever is added to the list for the mails
  abbrev pub Kept : Progress env → World → Type 0
  Kept progress w = Good progress.0 w.calls

  eligible_same :
      (ps : List Position) (b : Bool) (progress : Progress env)
      → (add_eligible env ps b progress).0 ≡ progress.0
  eligible_same ps true (settled, (eligible, failed)) = refl
  eligible_same ps false progress = refl

  Good-Known :
      (settled more : List Position) (cs : List Call)
      → Good settled cs
      → All Known more
      → Good (settled ++ more) cs
  Good-Known settled more cs (d, a) known =
      (d, All-append _ settled more a (All-map Known _ (λ p h. inr (inl h)) more known))

  Post-after_reconcile :
      (next : Progress env → Action (Progress env))
      → ((x : Progress env) → Post (Kept x) (next x) Kept (λ _. On DeliversSettled))
      → (progress : Progress env) (split : Split)
      → Post
          (λ w. Kept progress w × All Known split.1)
          (after_reconcile env next progress split)
          Kept
          (λ _. On DeliversSettled)
  Post-after_reconcile next h (done, rest) ([], settled) =
      Post-weaken (h (done ++ settled, rest)) (λ w g. Good-Known done settled w.calls g.0 g.1)
        (λ _ w g. g) (λ _ w g. g)
  Post-after_reconcile next h (done, (eligible, failed)) (p ∷ ps, settled) =
      Post-pure (done ++ settled, (eligible, true)) (λ w g. Good-Known done settled w.calls g.0 g.1)

  Post-after_sent :
      (next : Progress env → Action (Progress env))
      → ((x : Progress env) → Post (Kept x) (next x) Kept (λ _. On DeliversSettled))
      → (batch : List Position) (progress : Progress env) (tx : Text)
      → Post
          (On (Good (progress.0 ++ batch)))
          (after_batch env next batch progress (ok tx))
          Kept
          (λ _. On DeliversSettled)
  Post-after_sent next h batch (done, rest) tx =
      Post-bind
        (Post-weaken (Post-mark_in_db (Good (done ++ batch)) tx (map vault_of batch)) (λ w g. g)
          (λ _ w g. g) (λ _ w g. g.0))
        (λ marked.
          Post-weaken (h (add_eligible env batch marked (done ++ batch, rest)))
            (λ w g. rw (eligible_same batch marked (done ++ batch, rest)) g) (λ _ w g. g)
            (λ _ w g. g))

  Post-after_failed :
      (next : Progress env → Action (Progress env))
      → ((x : Progress env) → Post (Kept x) (next x) Kept (λ _. On DeliversSettled))
      → (batch : List Position) (progress : Progress env) (e : Exn)
      → Post
          (Kept progress)
          (after_batch env next batch progress (err e))
          Kept
          (λ _. On DeliversSettled)
  Post-after_failed next h batch progress e =
      Post-bind
        (Post-weaken (Post-reconcile_settled_on_chain (Good progress.0) batch) (λ w g. g)
          (λ _ w g. g) (λ _ w g. g.0))
        (λ split. Post-after_reconcile next h progress split)

  after_batch-Outcome :
      (next : Progress env → Action (Progress env))
      → ((x : Progress env) → Post (Kept x) (next x) Kept (λ _. On DeliversSettled))
      → (batch : List Position) (progress : Progress env) (x : Result Text × World)
      → Outcome (λ _. On (Good (progress.0 ++ batch))) (λ _. Kept progress) x
      → Outcome Kept (λ _. On DeliversSettled) (after_batch env next batch progress x.0 x.1)
  after_batch-Outcome next h batch progress (ok tx, w) g =
      (Post-after_sent next h batch progress tx).at w g
  after_batch-Outcome next h batch progress (err e, w) g =
      (Post-after_failed next h batch progress e).at w g

  pub Post-settle_batches :
      (bs : List (List Position)) (progress : Progress env)
      → Post (Kept progress) (settle_batches env bs progress) Kept (λ _. On DeliversSettled)
  unfolding settle_batches
  Post-settle_batches [] progress = record { at = λ w g. g }
  Post-settle_batches (batch ∷ bs) progress = record {
    at = λ w g.
        after_batch-Outcome (settle_batches env bs) (Post-settle_batches bs) batch progress
          (send_batch env (map vault_of batch) w)
          ((Post-send_batch env (Good progress.0) (Good (progress.0 ++ batch)) (map vault_of batch)
              (Good-batch progress.0 batch)).at
            w g);
  }
