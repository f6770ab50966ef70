-- ===== src/Exec/Post.antt =====
-- Pre- and postconditions of actions: one rule for each way to build an action.
use options_protocol_backend.Prelude.{Bool, true, false, ◌≡◌, refl, List, [], ◌∷◌, if◌then◌else◌}
use options_protocol_backend.Exec.{
  Exn, Result, ok, err, Exec, pure, raise, lift, gets, try_except, for_each, ◌>>=◌,
}

abbrev pub Outcome {ℓ} :
    {S A : Type ℓ} → (A → S → Type ℓ) → (Exn → S → Type ℓ) → Result A × S → Type ℓ
Outcome Q R (ok a, s) = Q a s
Outcome Q R (err e, s) = R e s

-- From a state with `P`, `m` returns in a state with `Q` or raises in one with `R`.
pub record Post {ℓ} {S A : Type ℓ} (P : S → Type ℓ) (m : Exec S A) (Q : A → S → Type ℓ)
    (R : Exn → S → Type ℓ) : Type ℓ where
  pub at : (s : S) → P s → Outcome Q R (m s)

module _ {ℓ} {S A : Type ℓ} {Q : A → S → Type ℓ} {R : Exn → S → Type ℓ} where
  weaken :
      {Q' : A → S → Type ℓ} {R' : Exn → S → Type ℓ} (q : (a : A) (s : S) → Q' a s → Q a s)
      (r : (e : Exn) (s : S) → R' e s → R e s) (x : Result A × S)
      → Outcome Q' R' x
      → Outcome Q R x
  weaken q r (ok a, s) h = q a s h
  weaken q r (err e, s) h = r e s h

  recover-Outcome :
      {E : Exn → S → Type ℓ} (h : Exn → Exec S A)
      → ((e : Exn) → Post (E e) (h e) Q R)
      → (x : Result A × S) → Outcome Q E x
      → Outcome Q R (try_except (λ _. x) h x.1)
  unfolding try_except
  recover-Outcome h ph (ok a, s) q = q
  recover-Outcome h ph (err e, s) q = (ph e).at s q

module _ {ℓ} {S A B : Type ℓ} {Q : B → S → Type ℓ} {R : Exn → S → Type ℓ} {I : A → S → Type ℓ} where
  continue-Outcome :
      (f : A → Exec S B)
      → ((a : A) → Post (I a) (f a) Q R)
      → (x : Result A × S) → Outcome I R x
      → Outcome Q R (((λ _. x) >>= f) x.1)
  unfolding ◌>>=◌
  continue-Outcome f pf (ok a, s) q = (pf a).at s q
  continue-Outcome f pf (err e, s) q = q

module _ {ℓ} {S A : Type ℓ} {P : S → Type ℓ} {Q : A → S → Type ℓ} {R : Exn → S → Type ℓ} where
  pub Post-pure : (a : A) → ((s : S) → P s → Q a s) → Post P (pure a) Q R
  unfolding pure
  Post-pure a f = record { at = f }

  pub Post-raise : (e : Exn) → ((s : S) → P s → R e s) → Post P (raise e) Q R
  unfolding raise
  Post-raise e f = record { at = f }

  pub Post-gets : (g : S → A) → ((s : S) → P s → Q (g s) s) → Post P (gets g) Q R
  unfolding gets
  Post-gets g f = record { at = f }

  pub Post-if :
      (b : Bool) (m n : Exec S A)
      → (b ≡ true → Post P m Q R)
      → (b ≡ false → Post P n Q R)
      → Post P (if b then m else n) Q R
  Post-if true m n pm pn = pm refl
  Post-if false m n pm pn = pn refl

  pub Post-weaken :
      {P' : S → Type ℓ} {Q' : A → S → Type ℓ} {R' : Exn → S → Type ℓ} {m : Exec S A}
      → Post P' m Q' R'
      → ((s : S) → P s → P' s)
      → ((a : A) (s : S) → Q' a s → Q a s)
      → ((e : Exn) (s : S) → R' e s → R e s)
      → Post P m Q R
  Post-weaken {m = m} h p q r = record { at = λ s ps. weaken q r (m s) (h.at s (p s ps)) }

  pub Post-try_except :
      {E : Exn → S → Type ℓ} {m : Exec S A} {h : Exn → Exec S A}
      → Post P m Q E
      → ((e : Exn) → Post (E e) (h e) Q R)
      → Post P (try_except m h) Q R
  unfolding try_except
  Post-try_except {m = m} {h = h} pm ph = record {
    at = λ s ps. recover-Outcome h ph (m s) (pm.at s ps);
  }

module _ {ℓ} {S A B : Type ℓ} {P : S → Type ℓ} {Q : B → S → Type ℓ} {R : Exn → S → Type ℓ}
    {I : A → S → Type ℓ} where
  pub Post-bind :
      {m : Exec S A} {f : A → Exec S B}
      → Post P m I R
      → ((a : A) → Post (I a) (f a) Q R)
      → Post P (m >>= f) Q R
  unfolding ◌>>=◌
  Post-bind {m = m} {f = f} pm pf = record { at = λ s ps. continue-Outcome f pf (m s) (pm.at s ps) }

module _ {ℓ} {S A B : Type ℓ} {P : S → Type ℓ} {Q : B → S → Type ℓ} {R : Exn → S → Type ℓ} where
  -- The rest of the block may use what a pure computation returned.
  pub Post-bind-lift :
      (r : Result A) (f : A → Exec S B)
      → ((a : A) → r ≡ ok a → Post P (f a) Q R)
      → ((e : Exn) (s : S) → P s → R e s)
      → Post P (lift r >>= f) Q R
  unfolding ◌>>=◌
  Post-bind-lift (ok a) f h r = h a refl
  Post-bind-lift (err e) f h r = record { at = λ s p. r e s p }

-- A fact that the precondition gives may be used on the way.
module _ {ℓ} {S A : Type ℓ} {P : S → Type ℓ} {Q : A → S → Type ℓ} {R : Exn → S → Type ℓ} where
  pub Post-given :
      {m : Exec S A} {F : Type ℓ} → ((s : S) → P s → F) → (F → Post P m Q R) → Post P m Q R
  Post-given h f = record { at = λ s p. (f (h s p)).at s p }

-- Where no exception is possible the action returns.
module _ {S : Type 0} (Q : S → Type 0) where
  pub Outcome-returns :
      (x : Result (Unit {0}) × S) → Outcome (λ _. Q) (λ _ _. ⊥) x → (x.0 ≡ ok tt) × Q x.1
  Outcome-returns (ok u, s) h = (refl, h)
  Outcome-returns (err e, s) h = absurd h

module _ {S A : Type 0} (Q : S → Type 0) where
  pub Outcome-always : (x : Result A × S) → Outcome (λ _. Q) (λ _. Q) x → Q x.1
  Outcome-always (ok a, s) h = h
  Outcome-always (err e, s) h = h

-- A loop keeps what each round keeps.
module _ {ℓ} {S A : Type ℓ} {P : S → Type ℓ} {R : Exn → S → Type ℓ} where
  pub Post-for_each :
      (xs : List A) (body : A → Exec S (Unit {ℓ}))
      → ((x : A) → Post P (body x) (λ _. P) R)
      → Post P (for_each xs body) (λ _. P) R
  unfolding for_each
  Post-for_each [] body h = Post-pure tt (λ s p. p)
  Post-for_each (x ∷ xs) body h = Post-bind (h x) (λ _. Post-for_each xs body h)
