-- ===== src/Yield/Shares.antt =====
-- src/yield_tracking/calculator.py: the allocations of a period against what is distributable, where
-- the shares have the accuracy of floats.
use mathlib.Core.Path.{subst}
use native.Mathlib.Nat.{le_of_mul-le-mul_right}
use options_protocol_backend.Prelude.{
  ℕ, zero, suc, ◌+◌, ◌-◌, ◌*◌, ◌≤◌, ◌≡◌, refl, inl, inr, List, [], ◌∷◌, filter, ltb, true, arith,
  Bool-cases,
}
use options_protocol_backend.Prelude.Text.{Text}
use options_protocol_backend.Yield.{
  Position, Allocation, sum_amounts, add_dust, keep_nonzero, rounded_shares, assign_dust, allocate,
  calculate_allocations, is_active, total_weight, weight_of,
}

add_dust-le :
    (d : ℕ) {n : ℕ} (xs : List Allocation)
    → sum_amounts xs + d ≤ n
    → sum_amounts (add_dust d xs) ≤ n
unfolding sum_amounts add_dust
add_dust-le d [] h = omega (arith, h)
add_dust-le d (a ∷ xs) h = omega (arith, h)

-- 2 ^ 50, and one more
abbrev pub whole : ℕ
whole = 1125899906842624

abbrev pub whole_and_part : ℕ
whole_and_part = 1125899906842625

-- A share is at most one part in 2 ^ 50 more than the exact one. `int(d * (w / t))` has three roundings
-- to a float, of d, of the quotient and of the product, each of a relative error of at most 2 ^ -53.
abbrev pub IsAccurate : (ℕ → ℕ → ℕ → ℕ) → Type 0
IsAccurate share = (d w t : ℕ) → share d w t * t * whole ≤ d * w * whole_and_part

module _ (share : ℕ → ℕ → ℕ → ℕ) (accurate : IsAccurate share) (id asset : Text)
    (period_start period_end distributable : ℕ) where
  sum-keep_nonzero :
      (p : Position) (n : ℕ) (rest : List Allocation)
      → sum_amounts (keep_nonzero share id asset period_start period_end distributable p n rest)
        ≡ n + sum_amounts rest
  unfolding sum_amounts
  sum-keep_nonzero p zero rest = omega arith
  sum-keep_nonzero p (suc n) rest = refl

  rounded_shares-weighed :
      (total : ℕ) (ps : List Position)
      → sum_amounts (rounded_shares share id asset period_start period_end distributable total ps)
          * total
          * whole
        ≤ distributable * total_weight period_start period_end ps * whole_and_part
  unfolding rounded_shares total_weight sum_amounts
  rounded_shares-weighed total [] = omega arith
  rounded_shares-weighed total (p ∷ ps) =
      rw
        (sum-keep_nonzero p (share distributable (weight_of period_start period_end p) total)
          (rounded_shares share id asset period_start period_end distributable total ps))
        (add (share distributable (weight_of period_start period_end p) total)
          (sum_amounts
            (rounded_shares share id asset period_start period_end distributable total ps))
          (weight_of period_start period_end p) (total_weight period_start period_end ps)
          (accurate distributable (weight_of period_start period_end p) total)
          (rounded_shares-weighed total ps))
    where
      add :
          (a b v u : ℕ)
          → a * total * whole ≤ distributable * v * whole_and_part
          → b * total * whole ≤ distributable * u * whole_and_part
          → (a + b) * total * whole ≤ distributable * (v + u) * whole_and_part
      add a b v u h k = grind arith

module _ (share : ℕ → ℕ → ℕ → ℕ) (accurate : IsAccurate share) (id asset : Text)
    (period_start period_end distributable : ℕ) where
  -- The rounded shares of positions that have a weight are at most one part in 2 ^ 50 more than what
  -- is distributable.
  rounded_shares-le :
      (total : ℕ) (ps : List Position)
      → total_weight period_start period_end ps ≡ suc total
      → sum_amounts
            (rounded_shares share id asset period_start period_end distributable (suc total) ps)
          * whole
        ≤ distributable * whole_and_part
  rounded_shares-le total ps e =
      cancelled
        (sum_amounts
          (rounded_shares share id asset period_start period_end distributable (suc total) ps))
        (subst
          (λ t.
            sum_amounts
                (rounded_shares share id asset period_start period_end distributable (suc total) ps)
              * suc total
              * whole
            ≤ distributable * t * whole_and_part)
          e
          (rounded_shares-weighed share accurate id asset period_start period_end distributable
            (suc total) ps))
    where
      cancelled :
          (s : ℕ)
          → s * suc total * whole ≤ distributable * suc total * whole_and_part
          → s * whole ≤ distributable * whole_and_part
      cancelled s h =
          let scaled : s * whole * suc total ≤ distributable * whole_and_part * suc total =
            grind (arith, h) in
          le_of_mul-le-mul_right scaled (omega arith)

  allocate-le :
      (ps : List Position) (total : ℕ)
      → total_weight period_start period_end ps ≡ total
      → sum_amounts (allocate share id asset period_start period_end distributable ps total).0
          * whole
        ≤ distributable * whole_and_part
  unfolding assign_dust sum_amounts
  allocate-le ps zero e = omega arith
  allocate-le ps (suc total) e =
      with_dust (rounded_shares share id asset period_start period_end distributable (suc total) ps)
        (rounded_shares-le total ps e)
    where
      filled :
          (xs : List Allocation)
          → ltb (sum_amounts xs) distributable ≡ true
          → sum_amounts (add_dust (distributable - sum_amounts xs) xs) * whole
            ≤ distributable * whole_and_part
      filled xs e =
          let under : sum_amounts xs ≤ distributable = ground (arith, e) in
          let full =
            add_dust-le (distributable - sum_amounts xs) {n = distributable} xs
              (omega (arith, under)) in
          omega (arith, full)

      with_dust :
          (xs : List Allocation)
          → sum_amounts xs * whole ≤ distributable * whole_and_part
          → sum_amounts (assign_dust share id asset period_start period_end distributable xs).0
              * whole
            ≤ distributable * whole_and_part
      with_dust xs h = elim (Bool-cases (ltb (sum_amounts xs) distributable)) [
        | inl e ↦ rw e (filled xs e)
        | inr e ↦ rw e h
      ]

  pub calculate_allocations-le :
      (rows : List Position)
      → sum_amounts
            (calculate_allocations share id asset period_start period_end distributable rows).0
          * whole
        ≤ distributable * whole_and_part
  unfolding calculate_allocations
  calculate_allocations-le rows =
      allocate-le (filter (is_active period_start period_end) rows) _ refl
