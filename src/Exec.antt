-- ===== src/Exec.antt =====
-- Python code that mutates shared state and may raise. What was written before a raise stays
-- written, so the state comes back beside the exception too.
pub mod Post
use options_protocol_backend.Prelude.{◌≡◌, ap, List, [], ◌∷◌}
use options_protocol_backend.Prelude.Text.{Text}

-- An exception: one that the source raises with a message of its own, a `ValueError` of `int` or of
-- `bytes.fromhex` at a text, or one that came out of a library or a service.
pub data Exn : Type 0 where
  raised : Text → Exn
  invalid_int : Text → Exn
  invalid_hex : Text → Exn
  external : Text → Exn

pub data Result {ℓ} (A : Type ℓ) : Type ℓ where
  ok : A → Result A
  err : Exn → Result A

pub ok-injective {ℓ} : {A : Type ℓ} {a b : A} → ok a ≡ ok b → a ≡ b
ok-injective {a = a} e = ap (λ r. elim r [ ok x ↦ x | err m ↦ a ]) e

abbrev pub Exec {ℓ} : Type ℓ → Type ℓ → Type ℓ
Exec S A = S → Result A × S

module _ {ℓ} {S A : Type ℓ} where
  pub pure : A → Exec S A
  pure a s = (ok a, s)

  pub raise : Exn → Exec S A
  raise e s = (err e, s)

  pub lift : Result A → Exec S A
  lift r s = (r, s)

  pub gets : (S → A) → Exec S A
  gets f s = (ok (f s), s)

  abbrev recover : Result A → (Exn → Exec S A) → Exec S A
  recover (ok a) h s = (ok a, s)
  recover (err e) h s = h e s

  -- `try: m except Exception as e: h(e)`
  unfoldable pub try_except : Exec S A → (Exn → Exec S A) → Exec S A
  unfolding pure raise lift gets
  try_except m h s = let (r, s') = m s in recover r h s'

module _ {ℓ} {S A B : Type ℓ} where
  abbrev continue : Result A → (A → Exec S B) → Exec S B
  continue (ok a) f s = f a s
  continue (err e) f s = (err e, s)

  infixl 10 ◌>>=◌ ◌>>◌
  -- opening this opens `pure`, `raise`, `lift`, `gets` and `try_except` too
  unfoldable pub ◌>>=◌ : Exec S A → (A → Exec S B) → Exec S B
  unfolding pure raise lift gets try_except
  ◌>>=◌ m f s = let (r, s') = m s in continue r f s'

  abbrev pub ◌>>◌ : Exec S A → Exec S B → Exec S B
  m >> n = m >>= λ _. n

-- `for x in xs: body(x)`
module _ {ℓ} {S A : Type ℓ} where
  unfoldable pub for_each : List A → (A → Exec S (Unit {ℓ})) → Exec S (Unit {ℓ})
  for_each [] body = pure tt
  for_each (x ∷ xs) body = body x >> for_each xs body
