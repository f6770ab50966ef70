-- ===== src/Pricing/Offered.antt =====
-- src/pricing/utils.py: the list of expiries that is offered.
use options_protocol_backend.Prelude.{
  ℕ, suc, ◌+◌, ◌*◌, ◌/◌, ◌%◌, ◌≤◌, ◌<◌, ◌≡◌, Bool-cases, inl, inr, List, [], ◌∷◌, map, All, All-map,
  length, ltb, ltb→lt, ◌==◌, arith,
}
use options_protocol_backend.Pricing.Expiries.{
  hour, day, next_0800_utc, next_friday_8am, insert_new, sorted_set, get_expiries,
}
use options_protocol_backend.Pricing.Fridays.{next_0800_utc-IsFirst, next_friday_8am-IsFirst}

-- each element is before all that follow
abbrev pub Ascending : List ℕ → Type 0
Ascending [] = Unit
Ascending (x ∷ xs) = All (λ y. x < y) xs × Ascending xs

insert_new-All : (P : ℕ → Type 0) (x : ℕ) (ys : List ℕ) → P x → All P ys → All P (insert_new x ys)
unfolding insert_new
insert_new-All P x [] px h = (px, tt)
insert_new-All P x (y ∷ ys) px (py, h) = elim (Bool-cases (ltb x y)) [
  | inl e ↦ rw e (px, (py, h))
  | inr e ↦ elim (Bool-cases (x == y)) [
    | inl same ↦ rw (e, same) (py, h)
    | inr other ↦ rw (e, other) (py, insert_new-All P x ys px h)
  ]
]

insert_new-Ascending : (x : ℕ) (ys : List ℕ) → Ascending ys → Ascending (insert_new x ys)
unfolding insert_new
insert_new-Ascending x [] h = (tt, tt)
insert_new-Ascending x (y ∷ ys) (after, h) = elim (Bool-cases (ltb x y)) [
  | inl e ↦
      let before : x < y = ltb→lt x y e in
      rw e (
        (
          before,
          All-map (λ z. y < z) (λ z. x < z) (λ z later. omega (arith, before, later)) ys after,
        ),
        (after, h),
      )
  | inr e ↦ elim (Bool-cases (x == y)) [
    | inl same ↦ rw (e, same) (after, h)
    | inr other ↦
        let before : y < x = ground (arith, e, other) in
        rw (e, other) (insert_new-All (λ z. y < z) x ys before after, insert_new-Ascending x ys h)
  ]
]

sorted_set-Ascending : (xs : List ℕ) → Ascending (sorted_set xs)
unfolding sorted_set
sorted_set-Ascending [] = tt
sorted_set-Ascending (x ∷ xs) = insert_new-Ascending x (sorted_set xs) (sorted_set-Ascending xs)

sorted_set-All : (P : ℕ → Type 0) (xs : List ℕ) → All P xs → All P (sorted_set xs)
unfolding sorted_set
sorted_set-All P [] h = tt
sorted_set-All P (x ∷ xs) (px, h) = insert_new-All P x (sorted_set xs) px (sorted_set-All P xs h)

length-insert_new :
    (x : ℕ) (ys : List ℕ)
    → (1 ≤ length (insert_new x ys)) × (length (insert_new x ys) ≤ suc (length ys))
unfolding insert_new
length-insert_new x [] = (omega arith, omega arith)
length-insert_new x (y ∷ ys) = elim (Bool-cases (ltb x y)) [
  | inl e ↦ rw e (omega arith, omega arith)
  | inr e ↦ elim (Bool-cases (x == y)) [
    | inl same ↦ rw (e, same) (omega arith, omega arith)
    | inr other ↦ rw (e, other) (omega arith, omega (arith, (length-insert_new x ys).1))
  ]
]

length-sorted_set : (xs : List ℕ) → length (sorted_set xs) ≤ length xs
unfolding sorted_set
length-sorted_set [] = omega arith
length-sorted_set (x ∷ xs) =
    omega (arith, (length-insert_new x (sorted_set xs)).1, length-sorted_set xs)

-- 08:00 UTC, after the short cutoff, in microseconds and in seconds
abbrev Offered : ℕ → ℕ → Type 0
Offered cutoff t = (t % day ≡ 8 * hour) × (cutoff < t)

abbrev pub IsExpiry : ℕ → ℕ → Type 0
IsExpiry cutoff e = (e % 86400 ≡ 28800) × (cutoff < e * 1000000)

abbrev seconds : ℕ → ℕ
seconds t = t / 1000000

seconds-IsExpiry : (cutoff t : ℕ) → Offered cutoff t → IsExpiry cutoff (seconds t)
seconds-IsExpiry cutoff t (at, later) = (ground arith, ground arith)

seconds-All :
    (cutoff : ℕ) (ts : List ℕ) → All (Offered cutoff) ts → All (IsExpiry cutoff) (map seconds ts)
seconds-All cutoff [] h = tt
seconds-All cutoff (t ∷ ts) (ht, h) = (seconds-IsExpiry cutoff t ht, seconds-All cutoff ts h)

seconds-after :
    (cutoff t : ℕ) (ts : List ℕ)
    → Offered cutoff t
    → All (λ u. t < u) ts
    → All (Offered cutoff) ts
    → All (λ e. seconds t < e) (map seconds ts)
seconds-after cutoff t [] ht h offered = tt
seconds-after cutoff t (u ∷ ts) ht (hu, h) (ou, offered) =
    (ground (arith, ht.0, ou.0, hu), seconds-after cutoff t ts ht h offered)

seconds-Ascending :
    (cutoff : ℕ) (ts : List ℕ) → Ascending ts → All (Offered cutoff) ts → Ascending (map seconds ts)
seconds-Ascending cutoff [] h offered = tt
seconds-Ascending cutoff (t ∷ ts) (after, h) (ot, offered) =
    (seconds-after cutoff t ts ot after offered, seconds-Ascending cutoff ts h offered)

length-map : (f : ℕ → ℕ) (xs : List ℕ) → length (map f xs) ≡ length xs
length-map f [] = omega arith
length-map f (x ∷ xs) = omega (arith, length-map f xs)

candidates : ℕ → ℕ → ℕ → List ℕ
candidates short_hours standard_hours now =
    next_0800_utc (now + short_hours * hour)
    ∷ next_friday_8am (now + short_hours * hour)
    ∷ next_friday_8am (now + standard_hours * hour)
    ∷ (next_friday_8am (now + standard_hours * hour) + 7 * day)
    ∷ []

candidates-Offered :
    (short_hours standard_hours now : ℕ)
    → short_hours ≤ standard_hours
    → All (Offered (now + short_hours * hour)) (candidates short_hours standard_hours now)
unfolding candidates
candidates-Offered short_hours standard_hours now h =
    let (daily, daily_after, _) = next_0800_utc-IsFirst (now + short_hours * hour) in
    let (near, near_after, _) = next_friday_8am-IsFirst (now + short_hours * hour) in
    let (weekly, weekly_after, _) = next_friday_8am-IsFirst (now + standard_hours * hour) in
    (
      (daily, daily_after),
      (
        (near.0, near_after),
        (
          (weekly.0, omega (arith, weekly_after, h)),
          ((ground (arith, weekly.0), omega (arith, weekly_after, h)), tt),
        ),
      ),
    )

-- a list of candidates, as it is offered
sorted_seconds-IsExpiry :
    (cutoff x : ℕ) (xs : List ℕ)
    → All (Offered cutoff) (x ∷ xs)
    → Ascending (map seconds (sorted_set (x ∷ xs)))
      × All (IsExpiry cutoff) (map seconds (sorted_set (x ∷ xs)))
      × (1 ≤ length (map seconds (sorted_set (x ∷ xs))))
      × (length (map seconds (sorted_set (x ∷ xs))) ≤ suc (length xs))
unfolding sorted_set
sorted_seconds-IsExpiry cutoff x xs h =
    let offered = sorted_set-All (Offered cutoff) (x ∷ xs) h in
    let size = length-map seconds (sorted_set (x ∷ xs)) in
    (
      seconds-Ascending cutoff (sorted_set (x ∷ xs)) (sorted_set-Ascending (x ∷ xs)) offered,
      seconds-All cutoff (sorted_set (x ∷ xs)) offered,
      omega (arith, size, (length-insert_new x (sorted_set xs)).0),
      omega (arith, size, length-sorted_set (x ∷ xs)),
    )

-- Where the short cutoff is at most the standard one, the expiries offered are from one to four
-- times, ascending and distinct, each at 08:00 UTC and after the short cutoff.
pub get_expiries-IsExpiry :
    (short_hours standard_hours now : ℕ)
    → short_hours ≤ standard_hours
    → Ascending (get_expiries short_hours standard_hours now)
      × All (IsExpiry (now + short_hours * hour)) (get_expiries short_hours standard_hours now)
      × (1 ≤ length (get_expiries short_hours standard_hours now))
      × (length (get_expiries short_hours standard_hours now) ≤ 4)
unfolding get_expiries candidates
get_expiries-IsExpiry short_hours standard_hours now h =
    sorted_seconds-IsExpiry (now + short_hours * hour) _ _
      (candidates-Offered short_hours standard_hours now h)
