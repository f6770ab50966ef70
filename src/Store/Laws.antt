-- ===== src/Store/Laws.antt =====
-- What the calls to the database and to the chains do to one row of the table of jobs and to the
-- list of calls.
use mathlib.Core.Option
use options_protocol_backend.Prelude.{
  ℕ, ◌≡◌, refl, List, [], ◌∷◌, Option, none, some, Bool-cases, inl, inr,
}
use options_protocol_backend.Prelude.Text.{Text, text_eq}
use options_protocol_backend.Prelude.Int.{ℤ}
use options_protocol_backend.Exec.{Exn, Result, ok, err}
use options_protocol_backend.Exec.Post.{Post, Outcome}
use options_protocol_backend.Bridge.{Chain, Job, BridgeFields, write_fields}
use options_protocol_backend.Capital.{IntentFields}
use options_protocol_backend.Store.{
  Env, World, Call, minted, mint_raised, submitted, finalized, find_job, update_rows, get_job,
  update_job_row, select_linked_intents, update_intent_row, receive_message, submit_trade,
  finalize_deposit, poll_once, on_database, answer, attempt, next_tick, linked_intents,
  update_intent_rows,
}

pub find_job-update_rows :
    (k : Text) (f : BridgeFields) (js : List Job)
    → find_job k (update_rows k f js) ≡ Option.map (write_fields f) (find_job k js)
find_job-update_rows k f [] = refl
find_job-update_rows k f (j ∷ js) = elim (Bool-cases (text_eq j.id k)) [
  | inl same ↦ rw (same, same)
  | inr other ↦ rw (other, other) (find_job-update_rows k f js)
]

-- A predicate on the row of the job `k` and on the calls so far.
abbrev pub View : Type 1
View = Option Job → List Call → Type 0

abbrev pub Obs : Text → View → World → Type 0
Obs k P w = P (find_job k w.jobs) w.calls

module _ {A : Type 0} (Q : A → World → Type 0) (R : Exn → World → Type 0) (w : World) where
  on_database-Outcome :
      (d : Option Exn) (q : World → A) (f : World → World)
      → Q (q w) (f (next_tick w))
      → ((e : Exn) → d ≡ some e → R e (next_tick w))
      → Outcome Q R (on_database d q f w)
  on_database-Outcome none q f h r = h
  on_database-Outcome (some e) q f h r = r e refl

  answer-Outcome :
      (a : Result A) (f : A → World → World)
      → ((x : A) → Q x (f x (next_tick w)))
      → ((e : Exn) → R e (next_tick w))
      → Outcome Q R (answer a f w)
  answer-Outcome (ok x) f h r = h x
  answer-Outcome (err e) f h r = r e

  attempt-Outcome :
      (a : Result A) (f : A → Call) (c : Call)
      → ((x : A) → Q x (record (next_tick w) { calls = f x ∷ w.calls }))
      → ((e : Exn) → R e (record (next_tick w) { calls = c ∷ w.calls }))
      → Outcome Q R (attempt a f c w)
  attempt-Outcome (ok x) f c h r = h x
  attempt-Outcome (err e) f c h r = r e

-- What holds where the database raised: nothing is to be shown if it is healthy.
abbrev pub Failing : Env → View → View
Failing env R o c = (n : ℕ) (e : Exn) → env.database n ≡ some e → R o c

module _ (env : Env) (k : Text) where
  pub Post-get_job :
      (P R : View)
      → Post
          (Obs k (λ o c. P o c × Failing env R o c))
          (get_job env k)
          (λ found. Obs k (λ o c. (found ≡ o) × P o c))
          (λ _. Obs k R)
  unfolding get_job
  Post-get_job P R = record {
    at = λ w h.
        on_database-Outcome (λ found. Obs k (λ o c. (found ≡ o) × P o c)) (λ _. Obs k R) w
          (env.database w.tick) (λ v. find_job k v.jobs) (λ v. v) (refl, h.0) (h.1 w.tick);
  }

  pub Post-update_job_row :
      (f : BridgeFields) (P R : View)
      → Post
          (Obs k (λ o c. P (Option.map (write_fields f) o) c × Failing env R o c))
          (update_job_row env k f)
          (λ _. Obs k P)
          (λ _. Obs k R)
  unfolding update_job_row
  Post-update_job_row f P R = record {
    at = λ w h.
        on_database-Outcome (λ _. Obs k P) (λ _. Obs k R) w (env.database w.tick) (λ _. tt)
          (λ v. record v { jobs = update_rows k f v.jobs })
          (rw (find_job-update_rows k f w.jobs) h.0) (h.1 w.tick);
  }

  pub Post-select_linked_intents :
      (P : View) → Post (Obs k P) (select_linked_intents env k) (λ _. Obs k P) (λ _. Obs k P)
  unfolding select_linked_intents
  Post-select_linked_intents P = record {
    at = λ w h.
        on_database-Outcome (λ _. Obs k P) (λ _. Obs k P) w (env.database w.tick)
          (λ v. linked_intents k v.intents) (λ v. v) h (λ _ _. h);
  }

  pub Post-update_intent_row :
      (i : Text) (f : IntentFields) (P : View)
      → Post (Obs k P) (update_intent_row env i f) (λ _. Obs k P) (λ _. Obs k P)
  unfolding update_intent_row
  Post-update_intent_row i f P = record {
    at = λ w h.
        on_database-Outcome (λ _. Obs k P) (λ _. Obs k P) w (env.database w.tick) (λ _. tt)
          (λ v. record v { intents = update_intent_rows i f v.intents }) h (λ _ _. h);
  }

  pub Post-poll_once :
      (d : ℕ) (tx : Text) (P R : View)
      → Post (Obs k P) (poll_once env d tx) (λ _. Obs k P) (λ _. Obs k R)
  unfolding poll_once
  Post-poll_once d tx P R = record { at = λ w h. h }

  -- A mint is listed, as one that answered or as one that raised.
  pub Post-receive_message :
      (ch : Chain) (m a : Text) (P R : View)
      → Post
          (Obs k (λ o c. ((tx : Text) → P o (minted ch m tx ∷ c)) × R o (mint_raised ch m ∷ c)))
          (receive_message env ch m a)
          (λ _. Obs k P)
          (λ _. Obs k R)
  unfolding receive_message
  Post-receive_message ch m a P R = record {
    at = λ w h.
        attempt-Outcome (λ _. Obs k P) (λ _. Obs k R) w (env.receive_message w.tick ch m a)
          (λ tx. minted ch m tx) (mint_raised ch m) (λ tx. h.0 tx) (λ _. h.1);
  }

  -- Another call to a chain is listed if it answers.

  pub Post-submit_trade :
      (ch : Chain) (signed : Text) (P R : View)
      → Post
          (Obs k (λ o c. ((tx : Text) → P o (submitted ch tx ∷ c)) × R o c))
          (submit_trade env ch signed)
          (λ _. Obs k P)
          (λ _. Obs k R)
  unfolding submit_trade
  Post-submit_trade ch signed P R = record {
    at = λ w h.
        answer-Outcome (λ _. Obs k P) (λ _. Obs k R) w (env.submit_trade w.tick ch signed)
          (λ tx v. record v { calls = submitted ch tx ∷ v.calls }) (λ tx. h.0 tx) (λ _. h.1);
  }

  pub Post-finalize_deposit :
      (i to : Text) (n : ℤ) (P R : View)
      → Post
          (Obs k (λ o c. P o (finalized i to n ∷ c) × R o c))
          (finalize_deposit env i to n)
          (λ _. Obs k P)
          (λ _. Obs k R)
  unfolding finalize_deposit
  Post-finalize_deposit i to n P R = record {
    at = λ w h.
        answer-Outcome (λ _. Obs k P) (λ _. Obs k R) w (env.finalize_deposit w.tick i to n)
          (λ tx v. record v { calls = finalized i to n ∷ v.calls }) (λ _. h.0) (λ _. h.1);
  }
