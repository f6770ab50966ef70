-- ===== src/Pricing/Expiries.antt =====
-- src/pricing/utils.py: the expiries that are offered. An instant in UTC is its number of microseconds
-- since the epoch, whose first day is a Thursday. The cutoffs of the settings are given in hours.
use options_protocol_backend.Prelude.{
  ℕ, ◌+◌, ◌-◌, ◌*◌, ◌/◌, ◌%◌, List, [], ◌∷◌, map, ltb, leb, ◌==◌, if◌then◌else◌,
}

abbrev pub hour : ℕ
hour = 3600000000

abbrev pub day : ℕ
day = 86400000000

-- Monday is 0.
abbrev pub weekday : ℕ → ℕ
weekday t = (t / day + 3) % 7

abbrev pub friday_weekday : ℕ
friday_weekday = 4

-- `t.replace(hour=8, minute=0, second=0, microsecond=0)`
abbrev pub at_8am : ℕ → ℕ
at_8am t = t / day * day + 8 * hour

-- `_next_0800_utc`
unfoldable pub next_0800_utc : ℕ → ℕ
next_0800_utc after = if leb (at_8am after) after then at_8am after + day else at_8am after

-- `(FRIDAY_WEEKDAY - after.weekday()) % 7`, which Python keeps from 0 to 6
abbrev pub days_ahead : ℕ → ℕ
days_ahead after = (friday_weekday + 7 - weekday after) % 7

abbrev pub days_to_add : ℕ → ℕ
days_to_add after =
    if days_ahead after == 0 then if leb (at_8am after) after then 7 else 0 else days_ahead after

-- `_next_friday_8am`
unfoldable pub next_friday_8am : ℕ → ℕ
next_friday_8am after = at_8am (after + days_to_add after * day)

-- `sorted(set(xs))`
unfoldable pub insert_new : ℕ → List ℕ → List ℕ
insert_new x [] = x ∷ []
insert_new x (y ∷ ys) =
    let rest = insert_new x ys in
    if ltb x y then x ∷ y ∷ ys else if x == y then y ∷ ys else y ∷ rest

unfoldable pub sorted_set : List ℕ → List ℕ
unfolding insert_new
sorted_set [] = []
sorted_set (x ∷ xs) = insert_new x (sorted_set xs)

unfoldable pub expiry_instants : ℕ → ℕ → ℕ → List ℕ
expiry_instants short_hours standard_hours now =
    let short_cutoff = now + short_hours * hour in
    let weekly = next_friday_8am (now + standard_hours * hour) in
    sorted_set
      (next_0800_utc short_cutoff ∷ next_friday_8am short_cutoff ∷ weekly ∷ (weekly + 7 * day) ∷ [])

-- `get_expiries`, in seconds
unfoldable pub get_expiries : ℕ → ℕ → ℕ → List ℕ
unfolding expiry_instants
get_expiries short_hours standard_hours now =
    map (λ t. t / 1000000) (expiry_instants short_hours standard_hours now)

-- `cutoff_hours_for_expiry`, at times in seconds, from the two cutoffs of the settings
unfoldable pub cutoff_hours_for_expiry : ℕ → ℕ → ℕ → ℕ → ℕ
cutoff_hours_for_expiry short_hours standard_hours expiry_ts now_ts =
    if leb expiry_ts (now_ts + 48 * 3600) then short_hours else standard_hours
