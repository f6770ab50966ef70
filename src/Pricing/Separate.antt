-- ===== src/Pricing/Separate.antt =====
-- src/pricing/circuit_breaker.py: the breaker holds one state for each asset.
use mathlib.Core.Bool.{true≢false}
use mathlib.Core.Path.{subst}
use options_protocol_backend.Prelude.{
  ℕ, Bool, true, false, ◌≡◌, refl, sym, ap, ◌∙◌, Bool-cases, inl, inr, Option, none, some, List, [],
  ◌∷◌, filter, All, if◌then◌else◌,
}
use options_protocol_backend.Prelude.Text.{Text, text_eq, text_eq_iff, text_eq_refl, lower}
use options_protocol_backend.Pricing.Breaker.{
  AssetState, CircuitBreaker, Operation, update_reference, check, resume, get_state, put_state,
  is_paused_for, asset_of, check_reference, step, answer_reference, check_answer, run,
}

module _ {Price : Type 0} where
  get_state-put_state :
      (key : Text) (s : AssetState Price) (b : CircuitBreaker Price)
      → get_state key (put_state key s b) ≡ s
  unfolding get_state put_state
  get_state-put_state key s [] = rw (text_eq_refl key)
  get_state-put_state key s ((k, t) ∷ b) = elim (Bool-cases (text_eq k key)) [
    | inl e ↦ rw (e, e)
    | inr e ↦ rw (e, e) (get_state-put_state key s b)
  ]

  get_state-other :
      (key other : Text) (s : AssetState Price) (b : CircuitBreaker Price)
      → text_eq key other ≡ false
      → get_state other (put_state key s b) ≡ get_state other b
  unfolding get_state put_state
  get_state-other key other s [] h = rw h
  get_state-other key other s ((k, t) ∷ b) h = elim (Bool-cases (text_eq k key)) [
    | inl e ↦
        let differ : text_eq k other ≡ false =
          ap (λ x. text_eq x other) ((text_eq_iff k key).0 e) ∙ h in
        rw (e, differ)
    | inr e ↦
        rw e (ap (λ rest. if text_eq k other then t else rest) (get_state-other key other s b h))
  ]

  -- the methods called for an asset
  abbrev pub is_on : Text → Operation Price → Bool
  is_on asset op = text_eq (asset_of op) (lower asset)

  module _ (trips : Price → Price → Bool) (reason : Text → Price → Price → Text) where
    -- one state machine
    abbrev replay : List (Operation Price) → AssetState Price → AssetState Price
    replay [] s = s
    replay (op ∷ ops) s = replay ops (step trips reason op s)

    -- what a call leaves for an asset, its own or another
    change_same :
        (f : AssetState Price → AssetState Price) (key other : Text) (b : CircuitBreaker Price)
        → text_eq key other ≡ true
        → get_state other (put_state key (f (get_state key b)) b) ≡ f (get_state other b)
    change_same f key other b e =
        subst (λ x. get_state x (put_state key (f (get_state key b)) b) ≡ f (get_state x b))
          ((text_eq_iff key other).0 e) (get_state-put_state key (f (get_state key b)) b)

    -- the state kept for an asset, by the calls for that asset alone
    run-replay :
        (asset : Text) (ops : List (Operation Price)) (b : CircuitBreaker Price)
        → get_state (lower asset) (run trips reason ops b)
          ≡ replay (filter (is_on asset) ops) (get_state (lower asset) b)
    unfolding run
    run-replay asset [] b = refl
    run-replay asset (op ∷ ops) b = elim (Bool-cases (is_on asset op)) [
      | inl e ↦ rw e (
          run-replay asset ops
            (put_state (asset_of op) (step trips reason op (get_state (asset_of op) b)) b)
          ∙ ap (replay (filter (is_on asset) ops))
              (change_same (step trips reason op) (asset_of op) (lower asset) b e))
      | inr e ↦ rw e (
          run-replay asset ops
            (put_state (asset_of op) (step trips reason op (get_state (asset_of op) b)) b)
          ∙ ap (replay (filter (is_on asset) ops)) (
              get_state-other (asset_of op) (lower asset)
                (step trips reason op (get_state (asset_of op) b)) b e))
    ]

    -- a call that does not set the reference of the asset
    abbrev pub is_check : Operation Price → Bool
    is_check (check price asset now) = true
    is_check _ = false

    -- paused, with a reference to compare with
    abbrev Latched : AssetState Price → Type 0
    Latched s = (s.is_paused ≡ true) × ((r : Price) × (s.reference_price ≡ some r))

    tripped-Latched :
        (price r : Price) (asset : Text) (now : ℕ) (s : AssetState Price) (b : Bool)
        → trips r price ≡ b
        → s.reference_price ≡ some r
        → (b ≡ false → s.is_paused ≡ true)
        → Latched (check_reference trips reason price asset now s (some r))
    tripped-Latched price r asset now s true e h calm = rw e (refl, (r, h))
    tripped-Latched price r asset now s false e h calm = rw e (calm refl, (r, h))

    -- a check keeps a pause, and one that answers true starts one
    check-Latched :
        (price : Price) (asset : Text) (now : ℕ) (s : AssetState Price)
        → ((r : Price) × (s.reference_price ≡ some r))
        → (answer_reference trips reason price s.reference_price ≡ false → s.is_paused ≡ true)
        → Latched (step trips reason (check price asset now) s)
    unfolding step
    check-Latched price asset now s (r, e) calm =
        subst (λ o. Latched (check_reference trips reason price asset now s o)) (sym e)
          (tripped-Latched price r asset now s (trips r price) refl e
            (λ f. calm (ap (answer_reference trips reason price) e ∙ f)))

    replay-Latched :
        (ops : List (Operation Price)) (s : AssetState Price)
        → All (λ op. is_check op ≡ true) ops
        → Latched s
        → Latched (replay ops s)
    replay-Latched [] s h l = l
    replay-Latched (check price asset now ∷ ops) s (_, h) l =
        replay-Latched ops (step trips reason (check price asset now) s) h
          (check-Latched price asset now s l.1 (λ _. l.0))
    replay-Latched (update_reference price asset now ∷ ops) s (e, h) l = absurd (true≢false (sym e))
    replay-Latched (resume price asset now ∷ ops) s (e, h) l = absurd (true≢false (sym e))

    checks_only :
        (asset : Text) (ops : List (Operation Price))
        → All (λ op. is_on asset op ≡ true → is_check op ≡ true) ops
        → All (λ op. is_check op ≡ true) (filter (is_on asset) ops)
    checks_only asset [] h = tt
    checks_only asset (op ∷ ops) (ho, h) = elim (Bool-cases (is_on asset op)) [
      | inl e ↦ rw e (ho e, checks_only asset ops h)
      | inr e ↦ rw e (checks_only asset ops h)
    ]

    answered-Referenced :
        (price : Price) (o : Option Price)
        → answer_reference trips reason price o ≡ true
        → (r : Price) × (o ≡ some r)
    answered-Referenced price none h = absurd (true≢false (sym h))
    answered-Referenced price (some r) h = (r, refl)

    -- Once a check of an asset has answered that quoting is to stop, the asset stays paused whatever
    -- calls follow for any assets, as long as none of them resumes that asset or sets its reference.
    pub run-Latched :
        (price : Price) (asset : Text) (now : ℕ) (ops : List (Operation Price))
        (b : CircuitBreaker Price)
        → check_answer trips reason price asset b ≡ true
        → All (λ op. is_on asset op ≡ true → is_check op ≡ true) ops
        → is_paused_for asset (run trips reason (check price asset now ∷ ops) b) ≡ true
    unfolding check_answer is_paused_for
    run-Latched price asset now ops b answered only =
        let s = get_state (lower asset) b in
        let latched : Latched (step trips reason (check price asset now) s) =
          check-Latched price asset now s (answered-Referenced price s.reference_price answered)
            (λ f. absurd (true≢false (sym answered ∙ f))) in
        let first : is_on asset (check price asset now) ≡ true = text_eq_refl (lower asset) in
        ap (λ t. t.is_paused) (run-replay asset (check price asset now ∷ ops) b)
        ∙ rw first
            (replay-Latched (filter (is_on asset) ops) (step trips reason (check price asset now) s)
              (checks_only asset ops only) latched).0
