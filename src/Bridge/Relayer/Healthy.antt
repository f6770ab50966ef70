-- ===== src/Bridge/Relayer/Healthy.antt =====
-- src/bridge/relayer.py: the steps of a job where every service answers.
use mathlib.Core.Option
use mathlib.Core.Option.{none-ne-some, some-injective}
use mathlib.Core.Bool.{true≢false}
use mathlib.Core.Path.{subst}
use options_protocol_backend.Prelude.{
  ℕ, zero, suc, ◌≤◌, Bool, true, false, ◌≡◌, sym, ap, ◌∙◌, ◌⊎◌, Option, none, some, List, ◌∷◌, ltb,
  arith, if◌then◌else◌,
}
use options_protocol_backend.Prelude.Text.{Text, truthy}
use options_protocol_backend.Exec.{Exn, Result, ok, err}
use options_protocol_backend.Exec.Post.{
  Post, Outcome, Post-pure, Post-if, Post-bind, Post-try_except, Post-weaken,
}
use options_protocol_backend.Bridge.{
  Chain, BridgeJobState, completed, mint_completed, Job, BridgeFields, write_fields,
}
use options_protocol_backend.Bridge.Relayer.{
  Settings, awaits_attestation, update_job, on_answer, poll_loop, poll_attestation,
}
use options_protocol_backend.Bridge.Relayer.Process.{submit_attempts, submit_trade_with_retries}
use options_protocol_backend.Bridge.Relayer.Rules.{Post-update_job}
use options_protocol_backend.Store.{
  Env, World, Action, Call, Poll, find_job, answer, attempt, next_tick, poll_once, receive_message,
  submit_trade, minted, mint_raised, submitted,
}
use options_protocol_backend.Store.Laws.{View, Obs}

-- Every call is answered: the database writes, the attestation is complete, mints and trades go through.
pub record Healthy (env : Env) : Type 0 where
  pub database : (n : ℕ) → env.database n ≡ none
  pub attested :
      (n domain : ℕ) (tx : Text)
      → (m : Text) × (a : Text) × (env.poll n domain tx ≡ Poll.complete m a)
  pub received :
      (n : ℕ) (c : Chain) (m a : Text) → (tx : Text) × (env.receive_message n c m a ≡ ok tx)
  pub traded :
      (n : ℕ) (c : Chain) (signed : Text) → (tx : Text) × (env.submit_trade n c signed ≡ ok tx)

abbrev is_answer : {A : Type 0} → Result A → Bool
is_answer (ok a) = true
is_answer (err e) = false

-- no state at all
abbrev pub Never : View
Never o c = ⊥

abbrev pub Present : View
Present o c = (j : Job) × (o ≡ some j)

abbrev pub Final : BridgeJobState → View
Final s o c = (j : Job) × (o ≡ some j) × (j.status ≡ s)

-- where a job ends
abbrev pub target : Job → BridgeJobState
target job = if truthy job.signed_trade_tx then completed else mint_completed

-- A job that waits for its attestation, or has it in its row.
abbrev pub IsReady : Job → Type 0
IsReady job =
    (awaits_attestation job.status ≡ true)
    ⊎ ((truthy job.attestation_message ≡ true) × (truthy job.attestation_signature ≡ true))

module _ (config : Settings) (env : Env) (healthy : Healthy env) (k : Text) where
  pub never_fails : (n : ℕ) (e : Exn) → env.database n ≡ some e → ⊥
  never_fails n e h = none-ne-some e (sym (healthy.database n) ∙ h)

  answered :
      {A : Type 0} (Q : World → Type 0) (r : Result A) (a : A) (f : A → World → World) (w : World)
      → r ≡ ok a
      → ((x : A) → Q (f x (next_tick w)))
      → Outcome (λ _. Q) (λ _ _. ⊥) (answer r f w)
  answered Q (ok x) a f w e h = h x
  answered Q (err e') a f w e h = true≢false (ap is_answer (sym e))

  attempted :
      {A : Type 0} (Q : World → Type 0) (r : Result A) (a : A) (f : A → Call) (c : Call) (w : World)
      → r ≡ ok a
      → ((x : A) → Q (record (next_tick w) { calls = f x ∷ w.calls }))
      → Outcome (λ _. Q) (λ _ _. ⊥) (attempt r f c w)
  attempted Q (ok x) a f c w e h = h x
  attempted Q (err e') a f c w e h = true≢false (ap is_answer (sym e))

  write_present :
      (f : BridgeFields) (o : Option Job) (c : List Call)
      → Present o c
      → Present (Option.map (write_fields f) o) c
  write_present f o c (j, e) = (write_fields f j, ap (Option.map (write_fields f)) e)

  pub Post-progress :
      (f : BridgeFields)
      → Post (Obs k Present) (update_job env k f) (λ _. Obs k Present) (λ _. Obs k Never)
  Post-progress f =
      Post-weaken (Post-update_job env k f Present Never)
        (λ w h. (write_present f (find_job k w.jobs) w.calls h, never_fails)) (λ _ w h. h)
        (λ _ w h. h)

  pub Post-finish :
      (f : BridgeFields) (s : BridgeJobState)
      → ((j : Job) → (write_fields f j).status ≡ s)
      → Post (Obs k Present) (update_job env k f) (λ _. Obs k (Final s)) (λ _. Obs k Never)
  Post-finish f s sets =
      Post-weaken (Post-update_job env k f (Final s) Never)
        (λ w h. ((write_fields f h.0, ap (Option.map (write_fields f)) h.1, sets h.0), never_fails))
        (λ _ w h. h) (λ _ w h. h)

  on_complete :
      (p : Poll) (again : Action (Text × Text)) (w : World)
      → (m : Text) × (a : Text) × (p ≡ Poll.complete m a)
      → Obs k Present w
      → Outcome (λ _. Obs k Present) (λ _. Obs k Never) (on_answer config env p again w)
  unfolding on_answer
  on_complete p again w (m, a, e) h =
      subst (λ q. Outcome (λ _. Obs k Present) (λ _. Obs k Never) (on_answer config env q again w))
        (sym e) (Post.at (Post-pure (m, a) (λ v p. p)) w h)

  pub Post-poll_attestation :
      1 ≤ config.cctp_attestation_timeout
      → (domain : ℕ) (tx : Text)
      → Post
          (Obs k Present)
          (poll_attestation config env domain tx)
          (λ _. Obs k Present)
          (λ _. Obs k Never)
  unfolding poll_attestation poll_loop poll_once
  Post-poll_attestation wait domain tx =
      Post-if (ltb 0 config.cctp_attestation_timeout) _ _
        (λ _.
          Post-bind
            {I = λ p w. Obs k Present w × ((m : Text) × (a : Text) × (p ≡ Poll.complete m a))}
            (record { at = λ w h. (h, healthy.attested w.tick domain tx) })
            (λ p. record { at = λ w h. on_complete p _ w h.1 h.0 }))
        (λ never. absurd (ground (arith, never, wait)))

  pub Post-receive :
      (c : Chain) (m a : Text)
      → Post (Obs k Present) (receive_message env c m a) (λ _. Obs k Present) (λ _. Obs k Never)
  unfolding receive_message
  Post-receive c m a = record {
    at = λ w h.
        let (tx, e) = healthy.received w.tick c m a in
        attempted (Obs k Present) (env.receive_message w.tick c m a) tx (λ t. minted c m t)
          (mint_raised c m) w e (λ t. h);
  }

  Post-submit :
      (c : Chain) (signed : Text)
      → Post (Obs k Present) (submit_trade env c signed) (λ _. Obs k Present) (λ _. Obs k Never)
  unfolding submit_trade
  Post-submit c signed = record {
    at = λ w h.
        let (tx, e) = healthy.traded w.tick c signed in
        answered (Obs k Present) (env.submit_trade w.tick c signed) tx
          (λ t v. record v { calls = submitted c t ∷ v.calls }) w e (λ t. h);
  }

  Post-attempts :
      (n : ℕ) (c : Chain) (signed : Text) (last : Exn)
      → 1 ≤ n
      → Post
          (Obs k Present)
          (submit_attempts config env n c signed last)
          (λ _. Obs k Present)
          (λ _. Obs k Never)
  unfolding submit_attempts
  Post-attempts zero c signed last h = absurd (omega (arith, h))
  Post-attempts (suc n) c signed last h =
      Post-try_except {E = λ _. Obs k Never} (Post-submit c signed)
        (λ e. record { at = λ w never. absurd never })

  pub Post-submit_trade_with_retries :
      (c : Chain) (signed : Text)
      → 1 ≤ config.cctp_trade_max_retries
      → Post
          (Obs k Present)
          (submit_trade_with_retries config env c signed)
          (λ _. Obs k Present)
          (λ _. Obs k Never)
  unfolding submit_trade_with_retries
  Post-submit_trade_with_retries c signed h =
      Post-try_except {E = λ _. Obs k Never}
        (Post-attempts config.cctp_trade_max_retries c signed _ h)
        (λ e. record { at = λ w never. absurd never })
