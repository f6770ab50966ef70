-- ===== src/Market/Best.antt =====
-- src/api/routes.py: the loop of `_best_quotes_by_otoken`, which names each option once, at its
-- highest bid.
use mathlib.Core.Bool.{true≢false}
use mathlib.Core.Path.{subst}
use options_protocol_backend.Prelude.{
  ℕ, ◌≤◌, Bool, true, false, Option, none, some, ◌≡◌, refl, sym, ap, ◌∙◌, inl, inr, ◌↔◌, List, [],
  ◌∷◌, ltb, All, All-map, Elem, arith, Bool-cases, if◌then◌else◌,
}
use options_protocol_backend.Market.{QuoteRow}
use options_protocol_backend.Market.Serve.{nat_eq?, bool_eq?, same_option, insert_best, best_from}

-- The quotes are for one option.
abbrev pub SameOption : QuoteRow → QuoteRow → Type 0
SameOption q r = (q.strike_price ≡ r.strike_price) × (q.expiry ≡ r.expiry) × (q.is_put ≡ r.is_put)

nat_eq?_iff : (a b : Option ℕ) → (nat_eq? a b ≡ true) ↔ (a ≡ b)
nat_eq?_iff none none = ground arith
nat_eq?_iff none (some b) = ground arith
nat_eq?_iff (some a) none = ground arith
nat_eq?_iff (some a) (some b) = ground arith

bool_eq?_iff : (a b : Option Bool) → (bool_eq? a b ≡ true) ↔ (a ≡ b)
bool_eq?_iff none none = ground arith
bool_eq?_iff none (some true) = ground arith
bool_eq?_iff none (some false) = ground arith
bool_eq?_iff (some true) none = ground arith
bool_eq?_iff (some false) none = ground arith
bool_eq?_iff (some true) (some true) = ground arith
bool_eq?_iff (some true) (some false) = ground arith
bool_eq?_iff (some false) (some true) = ground arith
bool_eq?_iff (some false) (some false) = ground arith

same_option-SameOption : (q r : QuoteRow) → same_option q r ≡ true → SameOption q r
unfolding same_option
same_option-SameOption q r h = ground (
  arith,
  nat_eq?_iff q.strike_price r.strike_price,
  nat_eq?_iff q.expiry r.expiry,
  bool_eq?_iff q.is_put r.is_put,
)

SameOption-same_option : (q r : QuoteRow) → SameOption q r → same_option q r ≡ true
unfolding same_option
SameOption-same_option q r h =
    rw ((nat_eq?_iff q.strike_price r.strike_price).1 h.0, (nat_eq?_iff q.expiry r.expiry).1 h.1)
      ((bool_eq?_iff q.is_put r.is_put).1 h.2)

SameOption-sym : (q r : QuoteRow) → SameOption q r → SameOption r q
SameOption-sym q r h = (sym h.0, sym h.1, sym h.2)

SameOption-trans : (q r s : QuoteRow) → SameOption q r → SameOption r s → SameOption q s
SameOption-trans q r s h k = (h.0 ∙ k.0, h.1 ∙ k.1, h.2 ∙ k.2)

-- No option is named twice.
abbrev pub Distinct : List QuoteRow → Type 0
Distinct [] = Unit
Distinct (q ∷ qs) = All (λ r. SameOption q r → ⊥) qs × Distinct qs

other_of : (q r : QuoteRow) → same_option q r ≡ false → SameOption q r → ⊥
other_of q r e s = true≢false (sym (SameOption-same_option q r s) ∙ e)

module _ (float : ℕ → ℕ) where
  -- the better of two quotes
  abbrev better : QuoteRow → QuoteRow → QuoteRow
  better q b = if ltb (float b.bid_price) (float q.bid_price) then q else b

  better-P : (P : QuoteRow → Type 0) (q b : QuoteRow) → P q → P b → P (better q b)
  better-P P q b pq pb = elim (Bool-cases (ltb (float b.bid_price) (float q.bid_price))) [
    | inl e ↦ rw e pq
    | inr e ↦ rw e pb
  ]

  insert_best-All :
      (P : QuoteRow → Type 0) (q : QuoteRow) (best : List QuoteRow)
      → P q
      → All P best
      → All P (insert_best float q best)
  unfolding insert_best
  insert_best-All P q [] pq h = (pq, tt)
  insert_best-All P q (b ∷ bs) pq (pb, h) = elim (Bool-cases (same_option q b)) [
    | inl e ↦ rw e (better-P P q b pq pb, h)
    | inr e ↦ rw e (pb, insert_best-All P q bs pq h)
  ]

  insert_best-Distinct :
      (q : QuoteRow) (best : List QuoteRow) → Distinct best → Distinct (insert_best float q best)
  unfolding insert_best
  insert_best-Distinct q [] h = (tt, tt)
  insert_best-Distinct q (b ∷ bs) (h, d) = elim (Bool-cases (same_option q b)) [
    | inl e ↦ rw e (
      better-P (λ x. All (λ r. SameOption x r → ⊥) bs) q b
          (All-map (λ r. SameOption b r → ⊥) (λ r. SameOption q r → ⊥)
            (λ r f s.
              f (SameOption-trans b q r (SameOption-sym q b (same_option-SameOption q b e)) s))
            bs h)
          h,
      d,
    )
    | inr e ↦ rw e (
      insert_best-All (λ r. SameOption b r → ⊥) q bs (λ s. other_of q b e (SameOption-sym b q s)) h,
      insert_best-Distinct q bs d,
    )
  ]

  -- An option of the list has a bid as high as this quote's.
  abbrev pub Outbid : List QuoteRow → QuoteRow → Type 0
  Outbid best q =
      (b : QuoteRow) × Elem b best × SameOption q b × (float q.bid_price ≤ float b.bid_price)

  Outbid-later : (x q : QuoteRow) (best : List QuoteRow) → Outbid best q → Outbid (x ∷ best) q
  Outbid-later x q best (b, m, s, l) = (b, inr m, s, l)

  insert_best-Outbid : (q : QuoteRow) (best : List QuoteRow) → Outbid (insert_best float q best) q
  unfolding insert_best
  insert_best-Outbid q [] = (q, inl refl, (refl, refl, refl), omega arith)
  insert_best-Outbid q (b ∷ bs) = elim (Bool-cases (same_option q b)) [
    | inl e ↦ rw e (
      better q b,
      inl refl,
      better-P (SameOption q) q b (refl, refl, refl) (same_option-SameOption q b e),
      ground arith,
    )
    | inr e ↦ rw e (Outbid-later b q (insert_best float q bs) (insert_best-Outbid q bs))
  ]

  insert_best-keeps :
      (q p : QuoteRow) (best : List QuoteRow) → Outbid best p → Outbid (insert_best float q best) p
  unfolding insert_best
  insert_best-keeps q p [] (b, m, s, l) = elim m [ ]
  insert_best-keeps q p (x ∷ xs) (b, inl i, s, l) = elim (Bool-cases (same_option q x)) [
    | inl e ↦ rw e (
      better q x,
      inl refl,
      better-P (SameOption p) q x
          (SameOption-trans p x q (subst (SameOption p) i s)
            (SameOption-sym q x (same_option-SameOption q x e)))
          (subst (SameOption p) i s),
      ground (arith, ap (λ y. float y.bid_price) i),
    )
    | inr e ↦
        rw e (x, inl refl, subst (SameOption p) i s, omega (arith, ap (λ y. float y.bid_price) i))
  ]
  insert_best-keeps q p (x ∷ xs) (b, inr m, s, l) = elim (Bool-cases (same_option q x)) [
    | inl e ↦ rw e (b, inr m, s, l)
    | inr e ↦
        rw e (Outbid-later x p (insert_best float q xs) (insert_best-keeps q p xs (b, m, s, l)))
  ]

  pub best_from-All :
      (P : QuoteRow → Type 0) (best qs : List QuoteRow)
      → All P best
      → All P qs
      → All P (best_from float best qs)
  unfolding best_from
  best_from-All P best [] h k = h
  best_from-All P best (q ∷ qs) h (k, ks) =
      best_from-All P (insert_best float q best) qs (insert_best-All P q best k h) ks

  pub best_from-Distinct :
      (best qs : List QuoteRow) → Distinct best → Distinct (best_from float best qs)
  unfolding best_from
  best_from-Distinct best [] h = h
  best_from-Distinct best (q ∷ qs) h =
      best_from-Distinct (insert_best float q best) qs (insert_best-Distinct q best h)

  best_from-keeps :
      (p : QuoteRow) (best qs : List QuoteRow) → Outbid best p → Outbid (best_from float best qs) p
  unfolding best_from
  best_from-keeps p best [] h = h
  best_from-keeps p best (q ∷ qs) h =
      best_from-keeps p (insert_best float q best) qs (insert_best-keeps q p best h)

  pub best_from-Outbid :
      (p : QuoteRow) (best qs : List QuoteRow) → Elem p qs → Outbid (best_from float best qs) p
  unfolding best_from
  best_from-Outbid p best [] m = elim m [ ]
  best_from-Outbid p best (q ∷ qs) (inl e) =
      best_from-keeps p (insert_best float q best) qs
        (subst (Outbid (insert_best float q best)) (sym e) (insert_best-Outbid q best))
  best_from-Outbid p best (q ∷ qs) (inr m) = best_from-Outbid p (insert_best float q best) qs m
