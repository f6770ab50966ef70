-- ===== src/Capital/Keys.antt =====
-- The idempotency keys in the table of the intents, src/capital_intents/routes.py and reconcile.py.
use options_protocol_backend.Prelude.{
  ℕ, ◌+◌, ◌≤◌, ◌≡◌, refl, sym, ap, Bool, true, false, Option, none, some, List, [], ◌∷◌, ◌++◌,
  Bool-cases, inl, inr, if◌then◌else◌, arith,
}
use options_protocol_backend.Prelude.Text.{Text, text_eq, non_empty}
use options_protocol_backend.Capital.{Intent, IntentFields}
use options_protocol_backend.Capital.Table.{find_key}
use options_protocol_backend.Store.{column_eq, update_intent_rows}
use mathlib.Core.Option.{none-ne-some}

-- how many intents have the key
abbrev pub count : Text → List Intent → ℕ
count k [] = 0
count k (i ∷ is) = let rest = count k is in if column_eq i.idempotency_key k then rest + 1 else rest

-- No key is that of two intents.
abbrev pub UniqueKeys : List Intent → Type 0
UniqueKeys is = (k : Text) → non_empty k ≡ true → count k is ≤ 1

count-append :
    (k : Text) (is : List Intent) (i : Intent)
    → count k (is ++ i ∷ []) ≡ count k is + count k (i ∷ [])
count-append k [] i = omega arith
count-append k (j ∷ js) i = elim (Bool-cases (column_eq j.idempotency_key k)) [
  | inl e ↦ rw e (omega (arith, count-append k js i))
  | inr e ↦ rw e (omega (arith, count-append k js i))
]

pub count-update :
    (k id : Text) (f : IntentFields) (is : List Intent)
    → count k (update_intent_rows id f is) ≡ count k is
count-update k id f [] = refl
count-update k id f (i ∷ is) = elim (Bool-cases (text_eq i.id id)) [
  | inl e ↦
      rw e (ap (λ n. if column_eq i.idempotency_key k then n + 1 else n) (count-update k id f is))
  | inr e ↦
      rw e (ap (λ n. if column_eq i.idempotency_key k then n + 1 else n) (count-update k id f is))
]

missing_case :
    (b : Bool) (i : Intent) (rest : Option Intent) (n : ℕ)
    → (rest ≡ none → n ≡ 0)
    → (if b then some i else rest) ≡ none
    → (if b then n + 1 else n) ≡ 0
missing_case true i rest n ih h = absurd (none-ne-some _ (sym h))
missing_case false i rest n ih h = ih h

pub count-missing : (k : Text) (is : List Intent) → find_key k is ≡ none → count k is ≡ 0
count-missing k [] h = refl
count-missing k (i ∷ is) h =
    missing_case (column_eq i.idempotency_key k) i (find_key k is) (count k is) (count-missing k is)
      h

pub update-UniqueKeys :
    (id : Text) (f : IntentFields) (is : List Intent)
    → UniqueKeys is
    → UniqueKeys (update_intent_rows id f is)
update-UniqueKeys id f is h k present = rw (count-update k id f is) (h k present)

pub insert-UniqueKeys :
    (is : List Intent) (i : Intent)
    → ((k : Text) → non_empty k ≡ true → column_eq i.idempotency_key k ≡ true → count k is ≡ 0)
    → UniqueKeys is
    → UniqueKeys (is ++ i ∷ [])
insert-UniqueKeys is i fresh h k present = elim (Bool-cases (column_eq i.idempotency_key k)) [
  | inl e ↦ rw (count-append k is i, e) (omega (arith, fresh k present e))
  | inr e ↦ rw (count-append k is i, e) (omega (arith, h k present))
]
