-- ===== src/Yield/Owed.antt =====
-- src/bots/yield_airdrop.py: sums by asset of what was harvested, paid and is still owed.
use mathlib.Core.Bool.{true≢false}
use options_protocol_backend.Prelude.{
  ℕ, zero, suc, ◌+◌, true, false, ◌≡◌, refl, sym, ap, ◌∙◌, inl, inr, List, [], ◌∷◌, ◌++◌, filter,
  ltb, All, All-map, arith, Bool-cases, if◌then◌else◌,
}
use options_protocol_backend.Prelude.Text.{Text, text_eq, text_eq_iff}
use options_protocol_backend.Yield.{
  Position, Allocation, sum_amounts, add_dust, keep_nonzero, rounded_shares, assign_dust, allocate,
  calculate_allocations, is_active, total_weight,
}
use options_protocol_backend.Yield.Tables.{
  Distribution, AllocationRow, Transfer, allocation_rows, has_distribution, is_pending_of,
  mark_paid,
}

-- an amount of one asset
abbrev pub only : Text → ℕ → Text → ℕ
only asset n a = if text_eq asset a then n else 0

unfoldable pub paid : Text → List Transfer → ℕ
paid a [] = 0
paid a (t ∷ ts) = only t.asset t.amount a + paid a ts

unfoldable pub taken : Text → List (Text × ℕ) → ℕ
taken a [] = 0
taken a ((asset, n) ∷ hs) = only asset n a + taken a hs

unfoldable pub owed : Text → List AllocationRow → ℕ
owed a [] = 0
owed a (r ∷ rs) = only r.allocation.asset r.allocation.amount a + owed a rs

-- Each row belongs to a distribution of the table, as its foreign key says.
abbrev pub Backed : List Distribution → List AllocationRow → Type 0
Backed ds rows = All (λ r. has_distribution r.allocation.distribution_id ds ≡ true) rows

-- No row belongs to the distribution yet.
abbrev pub Fresh : Text → List AllocationRow → Type 0
Fresh id rows = All (λ r. text_eq r.allocation.distribution_id id ≡ false) rows

has_distribution-append :
    (id : Text) (ds : List Distribution) (d : Distribution)
    → has_distribution id ds ≡ true
    → has_distribution id (ds ++ d ∷ []) ≡ true
has_distribution-append id [] d h = absurd (true≢false (sym h))
has_distribution-append id (x ∷ xs) d h = elim (Bool-cases (text_eq x.id id)) [
  | inl e ↦ rw e refl
  | inr e ↦ rw e (has_distribution-append id xs d (ground (arith, h, e)))
]

pub has_distribution-new :
    (id : Text) (ds : List Distribution) (d : Distribution)
    → d.id ≡ id
    → has_distribution id (ds ++ d ∷ []) ≡ true
has_distribution-new id [] d e = rw ((text_eq_iff d.id id).1 e) refl
has_distribution-new id (x ∷ xs) d e = elim (Bool-cases (text_eq x.id id)) [
  | inl h ↦ rw h refl
  | inr h ↦ rw h (has_distribution-new id xs d e)
]

pub Backed-append :
    (ds : List Distribution) (d : Distribution) (rows : List AllocationRow)
    → Backed ds rows
    → Backed (ds ++ d ∷ []) rows
Backed-append ds d rows h =
    All-map (λ r. has_distribution r.allocation.distribution_id ds ≡ true)
      (λ r. has_distribution r.allocation.distribution_id (ds ++ d ∷ []) ≡ true)
      (λ r e. has_distribution-append r.allocation.distribution_id ds d e) rows h

pub Backed-Fresh :
    (id : Text) (ds : List Distribution) (rows : List AllocationRow)
    → has_distribution id ds ≡ false
    → Backed ds rows
    → Fresh id rows
Backed-Fresh id ds [] e h = tt
Backed-Fresh id ds (r ∷ rs) e (b, h) = (
  elim (Bool-cases (text_eq r.allocation.distribution_id id)) [
    | inl same ↦ absurd (
        true≢false (
          sym b
          ∙ (ap (λ t. has_distribution t ds) ((text_eq_iff r.allocation.distribution_id id).0 same)
              ∙ e)))
    | inr other ↦ other
  ],
  Backed-Fresh id ds rs e h,
)

pub Backed-mark_paid :
    (ds : List Distribution) (id tx : Text) (rows : List AllocationRow)
    → Backed ds rows
    → Backed ds (mark_paid id tx rows)
unfolding mark_paid
Backed-mark_paid ds id tx [] h = tt
Backed-mark_paid ds id tx (r ∷ rs) (b, h) = elim (Bool-cases (text_eq r.id id)) [
  | inl e ↦ rw e (b, Backed-mark_paid ds id tx rs h)
  | inr e ↦ rw e (b, Backed-mark_paid ds id tx rs h)
]

-- Allocations of one distribution and one asset.
abbrev pub For : Text → Text → List Allocation → Type 0
For id asset xs = All (λ a. (a.distribution_id ≡ id) × (a.asset ≡ asset)) xs

pub Backed-insert :
    (ids : ℕ → Text) (i : ℕ) (ds : List Distribution) (id asset : Text) (rows : List AllocationRow)
    (xs : List Allocation)
    → has_distribution id ds ≡ true
    → For id asset xs
    → Backed ds rows
    → Backed ds (rows ++ allocation_rows ids i xs)
unfolding allocation_rows
Backed-insert ids i ds id asset [] [] e f h = tt
Backed-insert ids i ds id asset [] (x ∷ xs) e (f, fs) h =
    (ap (λ t. has_distribution t ds) f.0 ∙ e, Backed-insert ids (i + 1) ds id asset [] xs e fs h)
Backed-insert ids i ds id asset (r ∷ rs) xs e f (b, h) =
    (b, Backed-insert ids i ds id asset rs xs e f h)

-- Of a distribution that had no row, the pending rows are the new ones.
pub owed-select :
    (ids : ℕ → Text) (i : ℕ) (id asset a : Text) (rows : List AllocationRow) (xs : List Allocation)
    → Fresh id rows
    → For id asset xs
    → owed a (filter (is_pending_of id) (rows ++ allocation_rows ids i xs))
      ≡ only asset (sum_amounts xs) a
unfolding allocation_rows owed sum_amounts
owed-select ids i id asset a [] [] h f = ground arith
owed-select ids i id asset a [] (x ∷ xs) h (f, fs) =
    rw ((text_eq_iff x.distribution_id id).1 f.0, f.1)
      (ground (arith, owed-select ids (i + 1) id asset a [] xs tt fs))
owed-select ids i id asset a (r ∷ rs) xs (e, h) f = rw e (owed-select ids i id asset a rs xs h f)

module _ (share : ℕ → ℕ → ℕ → ℕ) (id asset : Text) (period_start period_end distributable : ℕ) where
  keep_nonzero-For :
      (p : Position) (n : ℕ) (rest : List Allocation)
      → For id asset rest
      → For id asset (keep_nonzero share id asset period_start period_end distributable p n rest)
  keep_nonzero-For p zero rest h = h
  keep_nonzero-For p (suc n) rest h = ((refl, refl), h)

  rounded_shares-For :
      (total : ℕ) (ps : List Position)
      → For id asset (rounded_shares share id asset period_start period_end distributable total ps)
  unfolding rounded_shares
  rounded_shares-For total [] = tt
  rounded_shares-For total (p ∷ ps) = keep_nonzero-For p _ _ (rounded_shares-For total ps)

  assign_dust-For :
      (xs : List Allocation)
      → For id asset xs
      → For id asset (assign_dust share id asset period_start period_end distributable xs).0
  unfolding assign_dust add_dust
  assign_dust-For [] h = elim (Bool-cases (ltb (sum_amounts []) distributable)) [
    | inl e ↦ rw e tt
    | inr e ↦ rw e tt
  ]
  assign_dust-For (x ∷ xs) h = elim (Bool-cases (ltb (sum_amounts (x ∷ xs)) distributable)) [
    | inl e ↦ rw e h
    | inr e ↦ rw e h
  ]

  allocate-For :
      (ps : List Position) (total : ℕ)
      → For id asset (allocate share id asset period_start period_end distributable ps total).0
  allocate-For ps zero = tt
  allocate-For ps (suc total) = assign_dust-For _ (rounded_shares-For (suc total) ps)

  pub calculate_allocations-For :
      (rows : List Position)
      → For id asset
          (calculate_allocations share id asset period_start period_end distributable rows).0
  unfolding calculate_allocations
  calculate_allocations-For rows =
      allocate-For (filter (is_active period_start period_end) rows)
        (total_weight period_start period_end (filter (is_active period_start period_end) rows))
