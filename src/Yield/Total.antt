-- ===== src/Yield/Total.antt =====
-- The sum of the allocations of `calculate_allocations` in src/yield_tracking/calculator.py.
use options_protocol_backend.Prelude.{
  ℕ, zero, suc, ◌+◌, ◌-◌, ◌≤◌, max, ◌≡◌, refl, ◌∙◌, ◌⊎◌, inl, inr, List, [], ◌∷◌, All, filter, ltb,
  arith, Bool-cases,
}
use options_protocol_backend.Prelude.Text.{Text}
use options_protocol_backend.Yield.{
  Position, Allocation, sum_amounts, add_dust, keep_nonzero, rounded_shares, assign_dust, allocate,
  calculate_allocations, is_active, total_weight, weight_of,
}

abbrev pub Positive : List Allocation → Type 0
Positive xs = All (λ a. 1 ≤ a.amount) xs

sum_amounts-add_dust :
    (d : ℕ) (a : Allocation) (xs : List Allocation)
    → sum_amounts (add_dust d (a ∷ xs)) ≡ sum_amounts (a ∷ xs) + d
unfolding sum_amounts add_dust
sum_amounts-add_dust d a xs = omega arith

add_dust-Positive : (d : ℕ) (xs : List Allocation) → Positive xs → Positive (add_dust d xs)
unfolding add_dust
add_dust-Positive d [] h = tt
add_dust-Positive d (a ∷ xs) (here, rest) = (omega (arith, here), rest)

module _ (share : ℕ → ℕ → ℕ → ℕ) (distribution_id asset : Text)
    (period_start period_end distributable : ℕ) where
  -- No amount is zero, and where there is an allocation they add up to the sum of the rounded
  -- shares, or to what is distributable if that is more.
  abbrev pub AddsUp : ℕ → List Allocation → Type 0
  AddsUp rounded xs = Positive xs × ((xs ≡ []) ⊎ (sum_amounts xs ≡ max distributable rounded))

  rounded_shares-Positive :
      (total : ℕ) (ps : List Position)
      → Positive (
          rounded_shares share distribution_id asset period_start period_end distributable total ps)
  unfolding rounded_shares
  rounded_shares-Positive total [] = tt
  rounded_shares-Positive total (p ∷ ps) =
      keep (share distributable (weight_of period_start period_end p) total)
        (rounded_shares share distribution_id asset period_start period_end distributable total ps)
        (rounded_shares-Positive total ps)
    where
      keep :
          (n : ℕ) (rest : List Allocation)
          → Positive rest
          → Positive (
              keep_nonzero share distribution_id asset period_start period_end distributable p n
                rest)
      keep zero rest h = h
      keep (suc n) rest h = (omega arith, h)

  assign_dust-AddsUp :
      (xs : List Allocation)
      → Positive xs
      → AddsUp
          (sum_amounts xs)
          (assign_dust share distribution_id asset period_start period_end distributable xs).0
  unfolding assign_dust
  assign_dust-AddsUp [] h = elim (Bool-cases (ltb (sum_amounts []) distributable)) [
    | inl less ↦ rw less (add_dust-Positive (distributable - sum_amounts []) [] tt, inl refl)
    | inr enough ↦ rw enough (tt, inl refl)
  ]
  assign_dust-AddsUp (a ∷ xs) h = elim (Bool-cases (ltb (sum_amounts (a ∷ xs)) distributable)) [
    | inl less ↦ rw less (
      add_dust-Positive (distributable - sum_amounts (a ∷ xs)) (a ∷ xs) h,
      inr (sum_amounts-add_dust (distributable - sum_amounts (a ∷ xs)) a xs ∙ ground (arith, less)),
    )
    | inr enough ↦ rw enough (h, inr (ground (arith, enough)))
  ]

  allocate-AddsUp :
      (ps : List Position) (total : ℕ)
      → AddsUp
          (sum_amounts (
            rounded_shares share distribution_id asset period_start period_end distributable total
              ps))
          (allocate share distribution_id asset period_start period_end distributable ps total).0
  allocate-AddsUp ps zero = (tt, inl refl)
  allocate-AddsUp ps (suc total) =
      assign_dust-AddsUp
        (rounded_shares share distribution_id asset period_start period_end distributable
          (suc total) ps)
        (rounded_shares-Positive (suc total) ps)

  -- Whatever the float product is, no allocation is zero, and there is none or they add up to the
  -- distributable amount, or to the rounded shares of the active positions where those are more.
  pub calculate_allocations-AddsUp :
      (rows : List Position)
      → AddsUp
          (sum_amounts (
            rounded_shares share distribution_id asset period_start period_end distributable
              (total_weight period_start period_end
                (filter (is_active period_start period_end) rows))
              (filter (is_active period_start period_end) rows)))
          (calculate_allocations share distribution_id asset period_start period_end distributable
            rows).0
  unfolding calculate_allocations
  calculate_allocations-AddsUp rows =
      allocate-AddsUp (filter (is_active period_start period_end) rows)
        (total_weight period_start period_end (filter (is_active period_start period_end) rows))
