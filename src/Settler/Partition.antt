-- ===== src/Settler/Partition.antt =====
-- How `identify_itm_positions` of src/bots/expiry_settler.py sorts the positions, in terms of the
-- cache that it returns.
use mathlib.Core.Bool.{true≢false}
use options_protocol_backend.Prelude.{
  ℕ, Bool, true, false, ◌&&◌, ◌≡◌, refl, sym, ap, ◌∙◌, Option, none, some, List, [], ◌∷◌, length,
  ltb, ◌==◌, ==_iff, arith, Bool-cases, inl, inr, if◌then◌else◌,
}
use options_protocol_backend.Prelude.Int.{ℤ, pos, negsuc, ltb_ℤ}
use options_protocol_backend.Prelude.Text.{Text, text_eq, text_eq_iff}
use options_protocol_backend.Settler.{Position}
use options_protocol_backend.Settler.Moneyness.{
  Key, key_eq, Cache, find_price, cache_key, is_itm, Identified, read_oracle, fill_cache,
  keep_position, identify, identify_itm_positions,
}

-- A price against a strike, which is signed in the events.
abbrev below_strike : ℕ → ℤ → Bool
below_strike price (pos s) = ltb price s
below_strike price (negsuc s) = false

abbrev above_strike : ℕ → ℤ → Bool
above_strike price (pos s) = ltb s price
above_strike price (negsuc s) = true

-- Is the price below the strike of a put, or above the strike of a call?
abbrev pub in_the_money : Bool → ℤ → ℕ → Bool
in_the_money true strike price = below_strike price strike
in_the_money false strike price = above_strike price strike

put_in_the_money : (strike : ℤ) (price : ℕ) → ltb_ℤ (pos price) strike ≡ below_strike price strike
put_in_the_money (pos s) price = ground arith
put_in_the_money (negsuc s) price = ground arith

call_in_the_money : (strike : ℤ) (price : ℕ) → ltb_ℤ strike (pos price) ≡ above_strike price strike
call_in_the_money (pos s) price = ground arith
call_in_the_money (negsuc s) price = ground arith

is_itm-in_the_money :
    (p : Position) (price : ℕ) → is_itm p price ≡ in_the_money p.is_put p.strike_price price
unfolding is_itm
is_itm-in_the_money p price = elim (Bool-cases p.is_put) [
  | inl put ↦ rw put (put_in_the_money p.strike_price price)
  | inr call ↦ rw call (call_in_the_money p.strike_price price)
]

-- The positions with their prices that are in the money, by the prices of a cache.
abbrev pub choose_itm : Position → Option (Option ℕ) → List (Position × ℕ) → List (Position × ℕ)
choose_itm p (some (some price)) rest =
    if in_the_money p.is_put p.strike_price price then (p, price) ∷ rest else rest
choose_itm p _ rest = rest

abbrev pub itm_at : Cache → List Position → List (Position × ℕ)
itm_at c [] = []
itm_at c (p ∷ ps) = choose_itm p (find_price (cache_key p) c) (itm_at c ps)

abbrev choose_unpriced : Position → Option (Option ℕ) → List (Text × ℕ) → List (Text × ℕ)
choose_unpriced p (some (some price)) rest = rest
choose_unpriced p _ rest = (p.user_address, p.vault_id) ∷ rest

abbrev pub unpriced_at : Cache → List Position → List (Text × ℕ)
unpriced_at c [] = []
unpriced_at c (p ∷ ps) = choose_unpriced p (find_price (cache_key p) c) (unpriced_at c ps)

pub key_eq_refl : (k : Key) → key_eq k k ≡ true
key_eq_refl (u, e) = rw ((text_eq_iff u u).1 refl, (==_iff e e).1 refl) refl

key_eq→≡ : (k k' : Key) → key_eq k k' ≡ true → k ≡ k'
key_eq→≡ (u, e) (u', e') h =
    ap (λ x. (x, e)) ((text_eq_iff u u').0 (left (text_eq u u') (e == e') h))
    ∙ ap (λ x. (u', x)) ((==_iff e e').0 (right (text_eq u u') (e == e') h))
  where
    left : (a b : Bool) → (a && b) ≡ true → a ≡ true
    left true b h = refl
    left false b h = h

    right : (a b : Bool) → (a && b) ≡ true → b ≡ true
    right true b h = h
    right false b h = absurd (true≢false (sym h))

abbrev is_none {ℓ} : {A : Type ℓ} → Option A → Bool
is_none none = true
is_none (some a) = false

none_not_some : {A : Type 0} (a : A) → none ≡ some a → ⊥
none_not_some a e = true≢false (ap is_none e)

keep_position-cache :
    (p : Position) (o : Option (Option ℕ)) (r : Identified) → (keep_position p o r).cache ≡ r.cache
keep_position-cache p none r = refl
keep_position-cache p (some none) r = refl
keep_position-cache p (some (some price)) r = elim (Bool-cases (is_itm p price)) [
  | inl itm ↦ rw itm refl
  | inr otm ↦ rw otm refl
]

keep_position-itm :
    (p : Position) (o : Option (Option ℕ)) (r : Identified)
    → (keep_position p o r).itm ≡ choose_itm p o r.itm
keep_position-itm p none r = refl
keep_position-itm p (some none) r = refl
keep_position-itm p (some (some price)) r =
    rw (is_itm-in_the_money p price)
      (elim (Bool-cases (in_the_money p.is_put p.strike_price price)) [
        | inl itm ↦ rw itm refl
        | inr otm ↦ rw otm refl
      ])

keep_position-skipped :
    (p : Position) (o : Option (Option ℕ)) (r : Identified)
    → (keep_position p o r).skipped ≡ choose_unpriced p o r.skipped
keep_position-skipped p none r = refl
keep_position-skipped p (some none) r = refl
keep_position-skipped p (some (some price)) r = elim (Bool-cases (is_itm p price)) [
  | inl itm ↦ rw itm refl
  | inr otm ↦ rw otm refl
]

module _ (oracle : ℕ → Key → Option ℕ) where
  read_oracle-keeps :
      (k k' : Key) (c : Cache) (v : Option ℕ) (o : Option (Option ℕ))
      → find_price k c ≡ some v
      → find_price k' c ≡ o
      → find_price k (read_oracle oracle k' c o) ≡ some v
  unfolding find_price
  read_oracle-keeps k k' c v (some p) h e = h
  read_oracle-keeps k k' c v none h e = elim (Bool-cases (key_eq k' k)) [
    | inl same ↦
        absurd (none_not_some v (sym e ∙ ap (λ x. find_price x c) (key_eq→≡ k' k same) ∙ h))
    | inr other ↦ rw other h
  ]

  -- Once read, a price stays.
  fill_cache-keeps :
      (k k' : Key) (c : Cache) (v : Option ℕ)
      → find_price k c ≡ some v
      → find_price k (fill_cache oracle k' c) ≡ some v
  unfolding fill_cache
  fill_cache-keeps k k' c v h = read_oracle-keeps k k' c v (find_price k' c) h refl

  read_oracle-finds :
      (k : Key) (c : Cache) (o : Option (Option ℕ))
      → find_price k c ≡ o
      → (v : Option ℕ) × (find_price k (read_oracle oracle k c o) ≡ some v)
  unfolding find_price
  read_oracle-finds k c (some p) e = (p, e)
  read_oracle-finds k c none e = (oracle (length c) k, rw (key_eq_refl k) refl)

  fill_cache-finds :
      (k : Key) (c : Cache) → (v : Option ℕ) × (find_price k (fill_cache oracle k c) ≡ some v)
  unfolding fill_cache
  fill_cache-finds k c = read_oracle-finds k c (find_price k c) refl

  identify-keeps :
      (ps : List Position) (k : Key) (c : Cache) (v : Option ℕ)
      → find_price k c ≡ some v
      → find_price k (identify oracle ps c).cache ≡ some v
  unfolding identify
  identify-keeps [] k c v h = h
  identify-keeps (p ∷ ps) k c v h =
      let c' = fill_cache oracle (cache_key p) c in
      rw (keep_position-cache p (find_price (cache_key p) c') (identify oracle ps c'))
        (identify-keeps ps k c' v (fill_cache-keeps k (cache_key p) c v h))

  abbrev Sorted : List Position → Identified → Type 0
  Sorted ps r = (r.itm ≡ itm_at r.cache ps) × (r.skipped ≡ unpriced_at r.cache ps)

  keep_position-Sorted :
      (p : Position) (ps : List Position) (r : Identified) (o : Option (Option ℕ))
      → find_price (cache_key p) r.cache ≡ o
      → Sorted ps r
      → Sorted (p ∷ ps) (keep_position p o r)
  keep_position-Sorted p ps r o e (itm, skipped) = (
    keep_position-itm p o r
        ∙ (ap (choose_itm p o) itm
            ∙ (ap (λ x. choose_itm p x (itm_at r.cache ps)) (sym e)
                ∙ ap (λ c. itm_at c (p ∷ ps)) (sym (keep_position-cache p o r)))),
    keep_position-skipped p o r
        ∙ (ap (choose_unpriced p o) skipped
            ∙ (ap (λ x. choose_unpriced p x (unpriced_at r.cache ps)) (sym e)
                ∙ ap (λ c. unpriced_at c (p ∷ ps)) (sym (keep_position-cache p o r)))),
  )

  identify-Sorted : (ps : List Position) (c : Cache) → Sorted ps (identify oracle ps c)
  unfolding identify
  identify-Sorted [] c = (refl, refl)
  identify-Sorted (p ∷ ps) c =
      let c' = fill_cache oracle (cache_key p) c in
      let (v, found) = fill_cache-finds (cache_key p) c in
      keep_position-Sorted p ps (identify oracle ps c') (find_price (cache_key p) c')
        (identify-keeps ps (cache_key p) c' v found ∙ sym found) (identify-Sorted ps c')

  -- Whatever the oracle answers, the positions returned as in the money are those whose price in the
  -- returned cache is below the strike of a put or above the strike of a call, each with that price
  -- and in order, and the positions skipped are those whose price is not there.
  pub identify_itm_positions-Sorted :
      (positions : List Position)
      → ((identify_itm_positions oracle positions).itm
          ≡ itm_at (identify_itm_positions oracle positions).cache positions)
        × ((identify_itm_positions oracle positions).skipped
            ≡ unpriced_at (identify_itm_positions oracle positions).cache positions)
  unfolding identify_itm_positions
  identify_itm_positions-Sorted positions = identify-Sorted positions []
