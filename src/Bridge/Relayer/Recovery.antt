-- ===== src/Bridge/Relayer/Recovery.antt =====
-- What `recover_incomplete_jobs` of src/bridge/relayer.py puts into the queue.
use options_protocol_backend.Prelude.{
  not, Bool, true, false, ◌≡◌, refl, sym, ◌∙◌, ap, none, List, [], ◌∷◌, ◌++◌, map, filter,
  Bool-cases, inl, inr,
}
use options_protocol_backend.Prelude.Text.{Text}
use options_protocol_backend.Exec.{ok, for_each, ◌>>=◌}
use options_protocol_backend.Bridge.{
  Job, BridgeJobState, pending, attesting, minting, trading, completed, mint_completed, failed,
  mint_completed_trade_failed,
}
use options_protocol_backend.Store.{Env, World, enqueue_job, next_tick}
use options_protocol_backend.Bridge.Relayer.Process.{
  is_terminal, incomplete, select_incomplete, recover_incomplete_jobs,
}

-- Is a job in this state still to be carried on?
abbrev is_unfinished : BridgeJobState → Bool
is_unfinished pending = true
is_unfinished attesting = true
is_unfinished minting = true
is_unfinished trading = true
is_unfinished completed = false
is_unfinished mint_completed = false
is_unfinished failed = false
is_unfinished mint_completed_trade_failed = false

-- The ids of the jobs that are pending, attesting, minting or trading.
abbrev pub unfinished_ids : List Job → List Text
unfinished_ids js = map (λ j. j.id) (filter (λ j. is_unfinished j.status) js)

is_terminal-is_unfinished : (s : BridgeJobState) → is_terminal s ≡ not (is_unfinished s)
is_terminal-is_unfinished pending = refl
is_terminal-is_unfinished attesting = refl
is_terminal-is_unfinished minting = refl
is_terminal-is_unfinished trading = refl
is_terminal-is_unfinished completed = refl
is_terminal-is_unfinished mint_completed = refl
is_terminal-is_unfinished failed = refl
is_terminal-is_unfinished mint_completed_trade_failed = refl

incomplete-unfinished_ids : (js : List Job) → incomplete js ≡ unfinished_ids js
incomplete-unfinished_ids [] = refl
incomplete-unfinished_ids (j ∷ js) =
    rw (is_terminal-is_unfinished j.status) (elim (Bool-cases (is_unfinished j.status)) [
      | inl open_ ↦ rw open_ (ap (λ l. j.id ∷ l) (incomplete-unfinished_ids js))
      | inr done ↦ rw done (incomplete-unfinished_ids js)
    ])

append_nil : (xs : List Text) → xs ++ [] ≡ xs
append_nil [] = refl
append_nil (x ∷ xs) = ap (λ l. x ∷ l) (append_nil xs)

append_one : (xs : List Text) (y : Text) (ys : List Text) → (xs ++ y ∷ []) ++ ys ≡ xs ++ y ∷ ys
append_one [] y ys = refl
append_one (x ∷ xs) y ys = ap (λ l. x ∷ l) (append_one xs y ys)

module _ (env : Env) where
  for_each-enqueue_job :
      (ids : List Text) (w : World)
      → for_each ids (enqueue_job env) w ≡ (ok tt, record w { queue = w.queue ++ ids })
  unfolding for_each enqueue_job ◌>>=◌
  for_each-enqueue_job [] w = ap (λ q. (ok tt, record w { queue = q })) (sym (append_nil w.queue))
  for_each-enqueue_job (k ∷ ids) w =
      for_each-enqueue_job ids (record w { queue = w.queue ++ k ∷ [] })
      ∙ ap (λ q. (ok tt, record w { queue = q })) (append_one w.queue k ids)

  -- Where the database answers, the start-up adds to the queue the ids of the jobs that are pending,
  -- attesting, minting or trading, each once and in the order of the table, and changes no table.
  pub recover_incomplete_jobs-enqueues :
      (w : World)
      → env.database w.tick ≡ none
      → recover_incomplete_jobs env w
        ≡ (ok tt, record (next_tick w) { queue = w.queue ++ unfinished_ids w.jobs })
  unfolding recover_incomplete_jobs select_incomplete ◌>>=◌
  recover_incomplete_jobs-enqueues w healthy = rw healthy (
      for_each-enqueue_job (incomplete w.jobs) (next_tick w)
      ∙ ap (λ l. (ok tt, record (next_tick w) { queue = w.queue ++ l }))
          (incomplete-unfinished_ids w.jobs))
