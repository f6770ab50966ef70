-- ===== src/Market/Halted.antt =====
-- src/bots/circuit_breaker_bot.py: what an invalidation leaves on the chain and in `mm_quotes`.
use mathlib.Core.Bool.{true≢false}
use mathlib.Core.Path.{subst}
use options_protocol_backend.Prelude.{
  ℕ, ◌≤◌, Bool, true, false, not, ◌≡◌, ◌≢◌, refl, sym, ap, ◌∙◌, ◌⊎◌, inl, inr, List, [], ◌∷◌, any,
  filter, All, arith, Bool-cases, if◌then◌else◌,
}
use options_protocol_backend.Prelude.Text.{Text}
use options_protocol_backend.Exec.{Exn, Result, ok, err}
use options_protocol_backend.Exec.Post.{
  Post, Outcome, Post-pure, Post-bind, Post-try_except, Post-weaken,
}
use options_protocol_backend.Bridge.{Chain, base, solana, arc, chain_eq}
use options_protocol_backend.Market.{Env, World, QuoteRow, deactivate}
use options_protocol_backend.Market.Halt.{
  is_open, is_active_on_base, has_active_non_expired_quotes, deactivate_active_quotes,
  nonce_incremented, send_increment, invalidate_if, invalidate_quotes,
}
use options_protocol_backend.Market.Written.{on_quotes-Outcome}

-- No active quote is before its deadline.
abbrev pub NoneOpen : ℕ → List QuoteRow → Type 0
NoneOpen now rows = All (λ r. r.is_active ≡ true → r.deadline ≤ now) rows

-- No quote for Base is active, and the quotes for other chains are as they were.
abbrev pub BaseHalted : List QuoteRow → List QuoteRow → Type 0
BaseHalted before rows =
    All (λ r. r.is_active ≡ true → r.chain ≢ base) rows
    × (filter (λ r. not (chain_eq r.chain base)) rows
        ≡ filter (λ r. not (chain_eq r.chain base)) before)

any-NoneOpen : (now : ℕ) (rows : List QuoteRow) → any (is_open now) rows ≡ false → NoneOpen now rows
any-NoneOpen now [] h = tt
any-NoneOpen now (r ∷ rs) h =
    let rest : any (is_open now) rs ≡ false = ground (arith, h) in
    ((λ t. ground (arith, h, t)), any-NoneOpen now rs rest)

chain_eq-base : (c : Chain) → chain_eq c base ≡ false → c ≢ base
chain_eq-base base h e = true≢false h
chain_eq-base solana h e = true≢false (ap (λ c. chain_eq c base) (sym e))
chain_eq-base arc h e = true≢false (ap (λ c. chain_eq c base) (sym e))

-- the row after the update
abbrev halted : QuoteRow → QuoteRow
halted r = if is_active_on_base r then record r { is_active = false } else r

halted-off : (r : QuoteRow) → (halted r).is_active ≡ true → (halted r).chain ≢ base
halted-off r t = elim (Bool-cases (is_active_on_base r)) [
  | inl e ↦ absurd (true≢false (ground (arith, t, e)))
  | inr e ↦
      let other : chain_eq r.chain base ≡ false = ground (arith, t, e) in
      subst (λ x. x.chain ≢ base) (sym (kept e)) (chain_eq-base r.chain other)
]
  where
    kept : is_active_on_base r ≡ false → halted r ≡ r
    kept e = rw e

deactivate-BaseHalted : (rows : List QuoteRow) → BaseHalted rows (deactivate is_active_on_base rows)
unfolding deactivate
deactivate-BaseHalted [] = (tt, refl)
deactivate-BaseHalted (r ∷ rs) =
    let (off, same) = deactivate-BaseHalted rs in
    (
      (halted-off r, off),
      elim (Bool-cases (chain_eq r.chain base)) [
        | inl e ↦ ground (arith, e, same)
        | inr e ↦ ground (arith, e, same)
      ],
    )

module _ (env : Env) (now : ℕ) (w : World) where
  abbrev pub Unchanged : World → Type 0
  Unchanged v = (v.quotes ≡ w.quotes) × (v.increments ≡ w.increments)

  abbrev pub Invalidated : World → Type 0
  Invalidated v =
      (tx : Text) × (v.increments ≡ ok tx ∷ w.increments)
      × ((v.quotes ≡ w.quotes) ⊎ BaseHalted w.quotes v.quotes)

  -- the one call for an increment raised, as the invalidation does
  abbrev pub Raised : Exn → World → Type 0
  Raised e v = (v.quotes ≡ w.quotes) × (v.increments ≡ err e ∷ w.increments)

  abbrev Incremented : World → Type 0
  Incremented v = ((tx : Text) × (v.increments ≡ ok tx ∷ w.increments)) × (v.quotes ≡ w.quotes)

  Post-has_active :
      Post Unchanged
        (has_active_non_expired_quotes env now)
        (λ b v. Unchanged v × (b ≡ any (is_open now) w.quotes))
        (λ _. Unchanged)
  unfolding has_active_non_expired_quotes
  Post-has_active = record {
    at = λ v h.
        on_quotes-Outcome (λ b x. Unchanged x × (b ≡ any (is_open now) w.quotes)) Unchanged
          (env.database v.tick) (any (is_open now)) (λ rows. rows) v (h, ap (any (is_open now)) h.0)
          h;
  }

  nonce-Outcome :
      (r : Result Text) (v : World)
      → Unchanged v
      → Outcome (λ _. Incremented) Raised (nonce_incremented env r v)
  nonce-Outcome (ok tx) v h = ((tx, ap (λ l. ok tx ∷ l) h.1), h.0)
  nonce-Outcome (err e) v h = (h.0, ap (λ l. err e ∷ l) h.1)

  Post-increment : Post Unchanged (send_increment env) (λ _. Incremented) Raised
  unfolding send_increment
  Post-increment = record { at = λ v h. nonce-Outcome (env.increment_maker_nonce v.tick) v h }

  Post-deactivate :
      Post Incremented (deactivate_active_quotes env) (λ _. Invalidated) (λ _. Incremented)
  unfolding deactivate_active_quotes
  Post-deactivate = record {
    at = λ v h.
        on_quotes-Outcome (λ _. Invalidated) Incremented (env.database v.tick) _
          (deactivate is_active_on_base) v
          (
            h.0.0,
            h.0.1,
            inr (
                subst (λ rows. BaseHalted rows (deactivate is_active_on_base v.quotes)) h.1
                  (deactivate-BaseHalted v.quotes)),
          )
          h;
  }

  -- what an invalidation leaves that returns
  abbrev pub Safe : World → Type 0
  Safe v = (NoneOpen now w.quotes × Unchanged v) ⊎ Invalidated v

  Post-invalidate_if :
      (b : Bool)
      → Post
          (λ v. Unchanged v × ((b ≡ false) → NoneOpen now w.quotes))
          (invalidate_if env b)
          (λ _. Safe)
          Raised
  Post-invalidate_if false = Post-pure tt (λ v h. inl (h.1 refl, h.0))
  Post-invalidate_if true =
      Post-bind {I = λ _. Incremented}
        (Post-weaken Post-increment (λ v h. h.0) (λ _ v h. h) (λ _ v h. h))
        (λ _.
          Post-try_except {E = λ _. Incremented}
            (Post-bind {I = λ _. Invalidated} Post-deactivate (λ n. Post-pure tt (λ v h. inr h)))
            (λ e. Post-pure tt (λ v h. inr (h.0.0, h.0.1, inl h.1))))

  Post-invalidate_quotes : Post Unchanged (invalidate_quotes env now) (λ _. Safe) Raised
  unfolding invalidate_quotes
  Post-invalidate_quotes =
      Post-bind {I = λ b v. Unchanged v × ((b ≡ false) → NoneOpen now w.quotes)}
        (Post-try_except {E = λ _. Unchanged}
          (Post-weaken Post-has_active (λ v h. h)
            (λ b v h. (h.0, (λ e. any-NoneOpen now w.quotes (sym h.1 ∙ e)))) (λ _ v h. h))
          (λ e. Post-pure true (λ v h. (h, (λ f. absurd (true≢false f))))))
        Post-invalidate_if

  -- When the circuit breaker trips, an invalidation that returns has either seen that no active
  -- quote is before its deadline and changed nothing, or incremented the nonce on the chain, once;
  -- then the quotes are as they were, or none for Base is active and those for other chains are as
  -- they were. An invalidation that raises has left the quotes as they were and called the chain for
  -- one increment, whose exception it raises; whether the chain carried that call out is left open.
  -- This holds whatever the database and the chain answer; so an invalidation that skips the chain
  -- has had an answer of the database.
  pub invalidate_quotes-Safe : Outcome (λ _. Safe) Raised (invalidate_quotes env now w)
  invalidate_quotes-Safe = Post-invalidate_quotes.at w (refl, refl)
