-- ===== src/Bridge/Cctp/Amounts.antt =====
-- What `parse_cctp_v2_burn_amounts` of src/bridge/cctp.py may return.
use options_protocol_backend.Prelude.{
  ℕ, ◌+◌, ◌≡◌, inl, inr, Option, none, some, length, drop, ltb, arith, Bool-cases,
}
use options_protocol_backend.Prelude.Text.{Text}
use options_protocol_backend.Prelude.Int.{ℤ, pos, ◌+ℤ◌, ◌-ℤ◌, ◌≤ℤ◌, ltb_ℤ, int_laws}
use options_protocol_backend.Exec.{Result, ok, err}
use options_protocol_backend.Bridge.Cctp.{
  Bytes, from_hex, strip_0x, from_bytes, slice, python_int, fallback_amounts, gross_or_fallback,
  net_of_fee, ◌>>=◌, burn_amounts_of_body, burn_amounts_of_message, burn_amounts_of_decoded,
  parse_cctp_v2_burn_amounts,
}

-- The three amounts agree.
abbrev pub Balanced : Result (ℤ × ℤ × ℤ) → Type 0
Balanced (err e) = Unit
Balanced (ok (g, f, n)) = (n +ℤ f ≡ g) × (pos 0 ≤ℤ f)

sub-add : (g : ℤ) (f : ℕ) → g -ℤ pos f +ℤ pos f ≡ g
sub-add g f = omega int_laws

net_of_fee-Balanced : (fee : ℕ) (g : ℤ) → Balanced (net_of_fee fee g)
net_of_fee-Balanced fee g = elim (Bool-cases (ltb_ℤ g (pos fee))) [
  | inl over ↦ rw over tt
  | inr fits ↦ rw fits (sub-add g fee, omega arith)
]

body-Balanced :
    (body : Bytes) (fallback : Option Text) → Balanced (burn_amounts_of_body body fallback)
unfolding burn_amounts_of_body
body-Balanced body fallback = go (gross_or_fallback (from_bytes (slice 68 100 body)) fallback)
  where
    go : (g : Result ℤ) → Balanced (g >>= net_of_fee (from_bytes (slice 164 196 body)))
    go (err e) = tt
    go (ok g) = net_of_fee-Balanced _ g

fallback-Balanced : (fallback : Option Text) → Balanced (fallback_amounts fallback)
fallback-Balanced none = tt
fallback-Balanced (some s) = go (python_int s)
  where
    go : (g : Result ℤ) → Balanced (g >>= λ gross. ok (gross, pos 0, gross))
    go (err e) = tt
    go (ok g) = (omega int_laws, omega arith)

message-Balanced :
    (message : Bytes) (fallback : Option Text) → Balanced (burn_amounts_of_message message fallback)
unfolding burn_amounts_of_message
message-Balanced message fallback = elim (Bool-cases (ltb (length message) (148 + 196))) [
  | inl short ↦ rw short (fallback-Balanced fallback)
  | inr long ↦ rw long (body-Balanced (drop 148 message) fallback)
]

decoded-Balanced :
    (hex : Text) (decoded : Option Bytes) (fallback : Option Text)
    → Balanced (burn_amounts_of_decoded hex decoded fallback)
unfolding burn_amounts_of_decoded
decoded-Balanced hex none fallback = tt
decoded-Balanced hex (some message) fallback = message-Balanced message fallback

-- Whatever the message and the fallback are, amounts that are returned satisfy gross = net + fee,
-- and the fee is not negative.
pub parse_cctp_v2_burn_amounts-Balanced :
    (message_hex : Text) (fallback : Option Text)
    → Balanced (parse_cctp_v2_burn_amounts message_hex fallback)
unfolding parse_cctp_v2_burn_amounts
parse_cctp_v2_burn_amounts-Balanced message_hex fallback =
    decoded-Balanced (strip_0x message_hex) (from_hex (strip_0x message_hex)) fallback
