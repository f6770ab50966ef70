-- ===== src/Prelude/Decimal.antt =====
-- Python's `str(n)` and `int(s)` between integers and decimal text. `int` strips white space,
-- takes one sign, and allows single underscores between digits (ASCII digits only).
use Prim.Native.Nat.{ℕ, zero, suc, ◌+◌, ◌-◌, ◌*◌, ◌/◌, ◌%◌, ◌<◌, ◌≤◌}
use mathlib.Core.Path.{◌≡◌, refl, ◌∙◌}
use mathlib.Core.Logic.{inl, inr}
use mathlib.Core.Bool.{Bool, true, false, ◌&&◌, ◌||◌}
use mathlib.Core.Option
use mathlib.Core.Option.{Option, none, some}
use mathlib.Core.List.{[], ◌∷◌}
use native.Mathlib.Omega.{arith}
use options_protocol_backend.Prelude.Tests.{ltb, leb, ◌==◌, if◌then◌else◌, Bool-cases}
use options_protocol_backend.Prelude.Lists.{All}
use options_protocol_backend.Prelude.Text.{Text, codes}
use options_protocol_backend.Prelude.Int.{ℤ, pos, negsuc, sub_ℕ}

-- The digits of `n` in front of `out`; fuel above `n` is enough.
emit : ℕ → ℕ → Text → Text
emit zero n out = out
emit (suc f) n out =
    let rest = emit f (n / 10) ((b'0' + n % 10) ∷ out) in
    if ltb n 10 then (b'0' + n) ∷ out else rest

unfoldable pub str_nat : ℕ → Text
unfolding emit
str_nat n = emit (suc n) n []

unfoldable pub str_int : ℤ → Text
unfolding str_nat
str_int (pos n) = str_nat n
str_int (negsuc n) = b'-' ∷ str_nat (suc n)

abbrev is_digit : ℕ → Bool
is_digit c = leb b'0' c && leb c b'9'

abbrev is_space : ℕ → Bool
is_space c = c == 32 || (leb 9 c && leb c 13) || (leb 28 c && leb c 31)

lstrip : Text → Text
lstrip [] = []
lstrip (c ∷ s) = let rest = lstrip s in if is_space c then rest else c ∷ s

-- `c ∷ s` without the white space at its end, where `s` has none there.
abbrev put_back : ℕ → Text → Text
put_back c [] = if is_space c then [] else c ∷ []
put_back c (d ∷ s) = c ∷ d ∷ s

rstrip : Text → Text
rstrip [] = []
rstrip (c ∷ s) = put_back c (rstrip s)

-- The digits behind the value `acc`; `after_digit` says whether the last character was a digit.
scan : Bool → ℕ → Text → Option ℕ
scan after_digit acc [] = if after_digit then some acc else none
scan after_digit acc (c ∷ s) =
    let rest = scan (is_digit c) (if is_digit c then acc * 10 + (c - b'0') else acc) s in
    if is_digit c || (after_digit && c == b'_') then rest else none

abbrev negate : ℕ → ℤ
negate n = sub_ℕ 0 n

signed : Text → Option ℤ
unfolding scan
signed [] = none
signed (c ∷ s) =
    if c == b'-'
    then Option.map negate (scan false 0 s)
    else if c == b'+'
    then Option.map pos (scan false 0 s)
    else Option.map pos (scan false 0 (c ∷ s))

-- `int(s)`; `none` is the `ValueError`.
unfoldable pub parse_int : Text → Option ℤ
unfolding signed lstrip rstrip
parse_int s = signed (rstrip (lstrip s))

abbrev IsDigit : ℕ → Type 0
IsDigit c = (b'0' ≤ c) × (c ≤ b'9')

scan-emit : (f n : ℕ) (b : Bool) (out : Text) → n < f → scan b 0 (emit f n out) ≡ scan true n out
unfolding emit scan
scan-emit zero n b out h = elim h [ ]
scan-emit (suc f) n b out h = elim (Bool-cases (ltb n 10)) [
  | inl small ↦ rw small (ground arith)
  | inr big ↦ rw big (ground (arith, scan-emit f (n / 10) b ((b'0' + n % 10) ∷ out)))
]

All-emit : (f n : ℕ) (out : Text) → All IsDigit out → All IsDigit (emit f n out)
unfolding emit
All-emit zero n out h = h
All-emit (suc f) n out h = elim (Bool-cases (ltb n 10)) [
  | inl small ↦ rw small (ground arith)
  | inr big ↦ rw big (All-emit f (n / 10) ((b'0' + n % 10) ∷ out) (omega arith, h))
]

rstrip-digits : (s : Text) → All IsDigit s → rstrip s ≡ s
unfolding rstrip
rstrip-digits [] h = refl
rstrip-digits (c ∷ []) h = ground arith
rstrip-digits (c ∷ d ∷ s) h = rw (rstrip-digits (d ∷ s) h.1)

lstrip-digits : (s : Text) → All IsDigit s → lstrip s ≡ s
unfolding lstrip
lstrip-digits [] h = refl
lstrip-digits (c ∷ s) h = ground arith

str_nat-digits : (n : ℕ) → All IsDigit (str_nat n)
unfolding str_nat
str_nat-digits n = All-emit (suc n) n [] tt

scan-str_nat : (n : ℕ) → scan false 0 (str_nat n) ≡ some n
unfolding str_nat
scan-str_nat n = scan-emit (suc n) n false [] (omega arith) ∙ (unfold scan in refl)

signed-digits :
    (s : Text) (n : ℕ) → All IsDigit s → scan false 0 s ≡ some n → signed s ≡ some (pos n)
unfolding signed
signed-digits [] n h e = unfold scan in cc e
signed-digits (c ∷ s) n h e = elim (Bool-cases (c == b'-')) [
  | inl minus ↦ absurd (ground arith)
  | inr digit ↦ elim (Bool-cases (c == b'+')) [
    | inl plus ↦ absurd (ground arith)
    | inr unsigned ↦ rw (digit, unsigned, e)
  ]
]

parse_int-digits :
    (s : Text) (n : ℕ) → All IsDigit s → scan false 0 s ≡ some n → parse_int s ≡ some (pos n)
unfolding parse_int
parse_int-digits s n h e = rw (lstrip-digits s h, rstrip-digits s h) (signed-digits s n h e)

rstrip-minus : (s : Text) → All IsDigit s → rstrip (b'-' ∷ s) ≡ b'-' ∷ s
unfolding rstrip
rstrip-minus [] h = refl
rstrip-minus (c ∷ s) h = rw (rstrip-digits (c ∷ s) h)

parse_int-minus :
    (s : Text) (n : ℕ)
    → All IsDigit s
    → scan false 0 s ≡ some n
    → parse_int (b'-' ∷ s) ≡ some (negate n)
unfolding parse_int
parse_int-minus s n h e = rw (rstrip-minus s h) (rw (e, scan))

-- `int(str(z))` is `z`.
pub parse_int-str_int : (z : ℤ) → parse_int (str_int z) ≡ some z
parse_int-str_int (pos n) =
    unfold str_int in parse_int-digits (str_nat n) n (str_nat-digits n) (scan-str_nat n)
parse_int-str_int (negsuc n) =
    unfold str_int in
    parse_int-minus (str_nat (suc n)) (suc n) (str_nat-digits (suc n)) (scan-str_nat (suc n))
    ∙ (ground arith)

parse_samples :
    (parse_int (codes " 1_000\n") ≡ some (pos 1000))
    × (parse_int (codes "-12") ≡ some (negsuc 11))
    × (parse_int (codes "1__0") ≡ none)
    × (parse_int (codes "") ≡ none)
unfolding parse_int
parse_samples = (refl, refl, refl, refl)

str_samples : (str_nat 1204 ≡ codes "1204") × (str_nat 0 ≡ codes "0")
unfolding str_nat
str_samples = (refl, refl)
