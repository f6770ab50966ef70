-- ===== src/Prelude/Lists.antt =====
-- Lists measured and indexed by native numbers, under the library's names.
use Prim.Native.Nat.{ℕ, zero, suc, ◌+◌, ◌≤◌, min}
use mathlib.Core.Path.{◌≡◌, refl, sym, ap, ◌∙◌}
use mathlib.Core.Logic.{◌⊎◌, inl, inr}
use mathlib.Core.Bool.{Bool, true, false, ◌||◌, true≢false}
use mathlib.Core.List.{List, [], ◌∷◌, ◌++◌}
use native.Mathlib.Omega.{arith}
use options_protocol_backend.Prelude.Tests.{if◌then◌else◌}

module _ {ℓ} {A : Type ℓ} where
  abbrev pub length : List A → ℕ
  length [] = 0
  length (x ∷ xs) = suc (length xs)

  abbrev pub take : ℕ → List A → List A
  take zero xs = []
  take (suc n) [] = []
  take (suc n) (x ∷ xs) = x ∷ take n xs

  abbrev pub drop : ℕ → List A → List A
  drop zero xs = xs
  drop (suc n) [] = []
  drop (suc n) (x ∷ xs) = drop n xs

  abbrev pub replicate : ℕ → A → List A
  replicate zero a = []
  replicate (suc n) a = a ∷ replicate n a

  -- A comprehension's filter, `[x for x in xs if p(x)]`.
  abbrev pub filter : (A → Bool) → List A → List A
  filter p [] = []
  filter p (x ∷ xs) = let rest = filter p xs in if p x then x ∷ rest else rest

  abbrev pub any : (A → Bool) → List A → Bool
  any p [] = false
  any p (x ∷ xs) = p x || any p xs

  pub length-append : (xs ys : List A) → length (xs ++ ys) ≡ length xs + length ys
  length-append [] ys = omega arith
  length-append (x ∷ xs) ys = omega (arith, length-append xs ys)

  pub length-take : (n : ℕ) (xs : List A) → length (take n xs) ≡ min n (length xs)
  length-take zero xs = omega arith
  length-take (suc n) [] = omega arith
  length-take (suc n) (x ∷ xs) = omega (arith, length-take n xs)

  pub length-filter : (p : A → Bool) (xs : List A) → length (filter p xs) ≤ length xs
  length-filter p [] = omega arith
  length-filter p (x ∷ xs) = ground (arith, length-filter p xs)

-- A predicate at every element.
module _ {ℓ κ} {A : Type ℓ} (P : A → Type κ) where
  abbrev pub All : List A → Type κ
  All [] = Unit
  All (x ∷ xs) = P x × All xs

module _ {ℓ} {A : Type ℓ} (P Q : A → Type ℓ) where
  pub All-map : ((x : A) → P x → Q x) → (xs : List A) → All P xs → All Q xs
  All-map f [] h = tt
  All-map f (x ∷ xs) (p, h) = (f x p, All-map f xs h)

  pub All-zip : (xs : List A) → All P xs → All Q xs → All (λ x. P x × Q x) xs
  All-zip [] p q = tt
  All-zip (x ∷ xs) (p, ps) (q, qs) = ((p, q), All-zip xs ps qs)

module _ {ℓ} {A : Type ℓ} (P : A → Type ℓ) where
  All-filter-case :
      (q : A → Bool) (x : A) (xs rest : List A)
      → (All P rest → All (λ y. q y ≡ true → P y) xs)
      → (b : Bool) → q x ≡ b
      → All P (if b then x ∷ rest else rest)
      → All (λ y. q y ≡ true → P y) (x ∷ xs)
  All-filter-case q x xs rest ih true e (p, h) = ((λ _. p), ih h)
  All-filter-case q x xs rest ih false e h = ((λ t. absurd (true≢false (sym t ∙ e))), ih h)

  pub All-filter :
      (q : A → Bool) (xs : List A) → All P (filter q xs) → All (λ x. q x ≡ true → P x) xs
  All-filter q [] h = tt
  All-filter q (x ∷ xs) h = All-filter-case q x xs (filter q xs) (All-filter q xs) (q x) refl h

module _ {ℓ} {A : Type ℓ} where
  pub drop-append : (n : ℕ) (xs ys : List A) → length xs ≡ n → drop n (xs ++ ys) ≡ ys
  drop-append n [] ys h = rw (← h)
  drop-append zero (x ∷ xs) ys h = absurd (omega arith)
  drop-append (suc n) (x ∷ xs) ys h = drop-append n xs ys (omega arith)

  pub take-append : (n : ℕ) (xs ys : List A) → length xs ≡ n → take n (xs ++ ys) ≡ xs
  take-append n [] ys h = rw (← h)
  take-append zero (x ∷ xs) ys h = absurd (omega arith)
  take-append (suc n) (x ∷ xs) ys h = ap (◌∷◌ x) (take-append n xs ys (omega arith))

  pub drop_past : (n a : ℕ) (xs ys : List A) → length xs ≡ n → drop (n + a) (xs ++ ys) ≡ drop a ys
  drop_past n a [] ys h = let e : n + a ≡ a = omega (arith, h) in ap (λ i. drop i ys) e
  drop_past zero a (x ∷ xs) ys h = absurd (omega (arith, h))
  drop_past (suc n) a (x ∷ xs) ys h =
      let e : suc n + a ≡ suc (n + a) = omega arith in
      ap (λ i. drop i (x ∷ (xs ++ ys))) e ∙ drop_past n a xs ys (omega (arith, h))

  pub take-length : (n : ℕ) (xs : List A) → length xs ≡ n → take n xs ≡ xs
  take-length zero [] h = refl
  take-length zero (x ∷ xs) h = absurd (omega (arith, h))
  take-length (suc n) [] h = refl
  take-length (suc n) (x ∷ xs) h = ap (λ l. x ∷ l) (take-length n xs (omega (arith, h)))

  drop-empty : (n : ℕ) → drop {A = A} n [] ≡ []
  drop-empty zero = refl
  drop-empty (suc n) = refl

  pub drop-drop : (m n : ℕ) (xs : List A) → drop n (drop m xs) ≡ drop (m + n) xs
  drop-drop zero n xs = let e : n ≡ 0 + n = omega arith in ap (λ i. drop i xs) e
  drop-drop (suc m) n [] = drop-empty n ∙ sym (drop-empty (suc m + n))
  drop-drop (suc m) n (x ∷ xs) =
      let e : suc (m + n) ≡ suc m + n = omega arith in
      drop-drop m n xs ∙ ap (λ i. drop i (x ∷ xs)) e

module _ {A : Type 0} where
  abbrev pub Elem : A → List A → Type 0
  Elem a [] = ⊥
  Elem a (x ∷ xs) = (a ≡ x) ⊎ Elem a xs

  Elem-later : (a : A) (xs ys : List A) → All (λ b. Elem b ys) xs → All (λ b. Elem b (a ∷ ys)) xs
  Elem-later a [] ys h = tt
  Elem-later a (x ∷ xs) ys (m, h) = (inr m, Elem-later a xs ys h)

  pub All-Elem : (xs : List A) → All (λ a. Elem a xs) xs
  All-Elem [] = tt
  All-Elem (x ∷ xs) = (inl refl, Elem-later x xs xs (All-Elem xs))

  module _ (P : A → Type 0) (p : A → Bool) where
    -- what a filter keeps passes its test
    filter-All-case :
        (x : A) (xs rest : List A) (b : Bool)
        → p x ≡ b
        → P x
        → All (λ y. P y × (p y ≡ true)) rest
        → All (λ y. P y × (p y ≡ true)) (if b then x ∷ rest else rest)
    filter-All-case x xs rest true e h hs = ((h, e), hs)
    filter-All-case x xs rest false e h hs = hs

    pub filter-All : (xs : List A) → All P xs → All (λ x. P x × (p x ≡ true)) (filter p xs)
    filter-All [] h = tt
    filter-All (x ∷ xs) (h, hs) = filter-All-case x xs (filter p xs) (p x) refl h (filter-All xs hs)
