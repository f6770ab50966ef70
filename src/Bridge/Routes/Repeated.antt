-- ===== src/Bridge/Routes/Repeated.antt =====
-- src/bridge/routes.py: a request for a job that is sent again.
use mathlib.Core.Bool.{true≢false}
use mathlib.Core.Path.{subst}
use options_protocol_backend.Prelude.{true, ◌≡◌, refl, sym, ◌∙◌, [], ◌∷◌, ◌++◌}
use options_protocol_backend.Prelude.Text.{Text}
use options_protocol_backend.Exec.{Result, ok, err}
use options_protocol_backend.Exec.Post.{Post, Outcome, Post-bind-lift, Post-weaken}
use options_protocol_backend.Bridge.Routes.{BridgeAndTradeRequest}
use options_protocol_backend.Bridge.Routes.Checks.{
  Services, validate_tx_hash, validate_bridge_chains,
}
use options_protocol_backend.Bridge.Routes.Burns.{bridge_and_trade}
use options_protocol_backend.Bridge.Routes.Dedup.{has_burn, Same, Queued, Post-create_bridge_job}
use options_protocol_backend.Store.{Env, World}

module _ (env : Env) (services : Services) (cosign : Text → Result Text)
    (body : BridgeAndTradeRequest) where
  Post-bridge_and_trade :
      (start : World)
      → Post
          (Same env cosign body start)
          (bridge_and_trade env services cosign body)
          (Queued env cosign body start)
          (λ _. Same env cosign body start)
  unfolding bridge_and_trade
  Post-bridge_and_trade start =
      Post-bind-lift (validate_bridge_chains services body.source_chain body.dest_chain) _
        (λ _ _.
          Post-bind-lift (validate_tx_hash body.burn_tx_hash body.source_chain) _
            (λ _ _. Post-create_bridge_job env cosign body start) (λ e v h. h))
        (λ e v h. h)

  refused-Outcome :
      (v : World) (x : Result Text × World)
      → has_burn body.burn_tx_hash v.jobs ≡ true
      → Outcome (Queued env cosign body v) (λ _. Same env cosign body v) x
      → Outcome (λ _ _. ⊥) (λ _. Same env cosign body v) x
  refused-Outcome v (ok id, u) has q = absurd (true≢false (sym has ∙ q.0))
  refused-Outcome v (err e, u) has h = h

  bridge_and_trade-refuses :
      (v : World)
      → has_burn body.burn_tx_hash v.jobs ≡ true
      → Outcome
          (λ _ _. ⊥)
          (λ _. Same env cosign body v)
          (bridge_and_trade env services cosign body v)
  bridge_and_trade-refuses v has =
      refused-Outcome v _ has ((Post-bridge_and_trade v).at v (refl, refl))

module _ (env : Env) (services : Services) (cosign : Text → Result Text)
    (body again : BridgeAndTradeRequest) (same : body.burn_tx_hash ≡ again.burn_tx_hash) where
  -- A request for a job either is refused and leaves the jobs and the queue as they were, or it is
  -- answered with a job's id, which it added to the queue, once. In the latter case a request with
  -- the same burn hash that comes next, whatever else it says, is refused and leaves the jobs and the
  -- queue as they were.
  pub bridge_and_trade-once :
      (start : World)
      → Outcome
          (λ id v.
            (v.queue ≡ start.queue ++ id ∷ [])
            × Outcome
                (λ _ _. ⊥)
                (λ _. Same env cosign again v)
                (bridge_and_trade env services cosign again v))
          (λ _. Same env cosign body start)
          (bridge_and_trade env services cosign body start)
  bridge_and_trade-once start =
      Post.at
        (Post-weaken (Post-bridge_and_trade env services cosign body start) (λ v h. h)
          (λ id v h. (
            h.2,
            bridge_and_trade-refuses env services cosign again v
                (subst (λ t. has_burn t v.jobs ≡ true) same h.1),
          ))
          (λ e v h. h))
        start (refl, refl)
