-- ===== src/Settler/Batches.antt =====
-- src/bots/expiry_settler.py: `_reconcile_settled_on_chain`, `_mark_batch_settled` and phase 1 of
-- `settle_once`.
use options_protocol_backend.Prelude.{
  ℕ, zero, suc, ◌+◌, Bool, true, false, List, [], ◌∷◌, ◌++◌, map, take, drop, length,
}
use options_protocol_backend.Prelude.Text.{Text, codes}
use options_protocol_backend.Exec.{raised, Result, ok, err, pure, raise, try_except, ◌>>=◌, ◌>>◌}
use options_protocol_backend.Settler.{Position}
use options_protocol_backend.Settler.State.{
  Vault, vault_of, reconciled, cash, Env, Action, update_row, read_vault_settled, send_batch,
}

abbrev pub max_batch_size : ℕ
max_batch_size = 50

-- `for i in range(0, len(xs), n): xs[i : i + n]`, on fuel for the number of rounds
unfoldable pub batches_of : ℕ → List Position → List (List Position)
batches_of zero ps = []
batches_of (suc rounds) [] = []
batches_of (suc rounds) (p ∷ ps) =
    take max_batch_size (p ∷ ps) ∷ batches_of rounds (drop max_batch_size (p ∷ ps))

unfoldable pub batches : List Position → List (List Position)
unfolding batches_of
batches ps = batches_of (length ps) ps

-- (unsettled, already settled)
abbrev pub Split : Type 0
Split = List Position × List Position

abbrev pub put_unsettled : Position → Split → Split
put_unsettled p (unsettled, settled) = (p ∷ unsettled, settled)

abbrev pub put_settled : Position → Split → Split
put_settled p (unsettled, settled) = (unsettled, p ∷ settled)

module _ (env : Env) where
  -- a vault whose state cannot be read counts as unsettled
  abbrev pub check_settled : Position → Action Bool
  check_settled p = try_except (read_vault_settled env (vault_of p)) (λ e. pure false)

  unfoldable pub note_settled : Position → Action Unit
  note_settled p =
      try_except (update_row env (vault_of p) (reconciled (vault_of p)) >> pure tt) (λ e. pure tt)

  abbrev pub sort_position : Position → Bool → Action Split → Action Split
  sort_position p false rest = do split ← rest; pure (put_unsettled p split)
  sort_position p true rest = do note_settled p; split ← rest; pure (put_settled p split)

  -- `_reconcile_settled_on_chain`
  unfoldable pub reconcile_settled_on_chain : List Position → Action Split
  unfolding note_settled
  reconcile_settled_on_chain [] = pure ([], [])
  reconcile_settled_on_chain (p ∷ ps) = do
    settled ← check_settled p
    sort_position p settled (reconcile_settled_on_chain ps)

  abbrev pub failures_with : Bool → ℕ → ℕ
  failures_with true n = n
  failures_with false n = n + 1

  abbrev pub mark_settled : Text → Vault → Action Bool
  mark_settled tx_hash k = try_except (update_row env k (cash k tx_hash)) (λ e. pure false)

  -- the loop of `_mark_batch_settled`, which counts the failures
  unfoldable pub mark_vaults : Text → List Vault → Action ℕ
  mark_vaults tx_hash [] = pure 0
  mark_vaults tx_hash (k ∷ ks) = do
    marked ← mark_settled tx_hash k
    failures ← mark_vaults tx_hash ks
    pure (failures_with marked failures)

  abbrev pub require_none : ℕ → Action Unit
  require_none zero = pure tt
  require_none (suc n) = raise (raised (codes "_mark_batch_settled: positions failed"))

  unfoldable pub mark_batch_settled : Text → List Vault → Action Unit
  unfolding mark_vaults
  mark_batch_settled tx_hash ks = do failures ← mark_vaults tx_hash ks; require_none failures

  -- `settled_positions`, `email_eligible_positions` and `phase1_failed`
  abbrev pub Progress : Type 0
  Progress = List Position × (List Position × Bool)

  abbrev pub add_settled : List Position → Progress → Progress
  add_settled ps (settled, rest) = (settled ++ ps, rest)

  abbrev pub add_eligible : List Position → Bool → Progress → Progress
  add_eligible ps true (settled, (eligible, failed)) = (settled, (eligible ++ ps, failed))
  add_eligible ps false progress = progress

  abbrev pub stop : Progress → Progress
  stop (settled, (eligible, failed)) = (settled, (eligible, true))

  abbrev pub mark_in_db : Text → List Vault → Action Bool
  mark_in_db tx_hash ks = try_except (mark_batch_settled tx_hash ks >> pure true) (λ e. pure false)

  abbrev pub after_reconcile : (Progress → Action Progress) → Progress → Split → Action Progress
  after_reconcile next progress ([], settled) = next (add_settled settled progress)
  after_reconcile next progress (p ∷ unsettled, settled) =
      pure (stop (add_settled settled progress))

  -- a batch that was sent, or one that was not
  abbrev pub after_batch :
      (Progress → Action Progress) → List Position → Progress → Result Text → Action Progress
  after_batch next batch progress (ok tx_hash) = do
    marked ← mark_in_db tx_hash (map vault_of batch)
    next (add_eligible batch marked (add_settled batch progress))
  after_batch next batch progress (err e) = do
    split ← reconcile_settled_on_chain batch
    after_reconcile next progress split

  unfoldable pub settle_batches : List (List Position) → Progress → Action Progress
  unfolding mark_batch_settled reconcile_settled_on_chain
  settle_batches [] progress w = (ok progress, w)
  settle_batches (batch ∷ rest) progress w =
      after_batch (settle_batches rest) batch progress (send_batch env (map vault_of batch) w).0
        (send_batch env (map vault_of batch) w).1
