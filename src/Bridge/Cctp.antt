-- ===== src/Bridge/Cctp.antt =====
-- src/bridge/cctp.py: the amounts in a CCTP V2 burn message, byte by byte.
pub mod Amounts
pub mod Encoding
use options_protocol_backend.Prelude.{
  ℕ, ◌+◌, ◌-◌, ◌*◌, Bool, true, false, ◌&&◌, ◌||◌, Option, none, some, List, [], ◌∷◌, length, take,
  drop, ltb, leb, ◌==◌, if◌then◌else◌,
}
use mathlib.Core.List.{foldl}
use options_protocol_backend.Prelude.Text.{Text, codes, starts_with}
use options_protocol_backend.Prelude.Int.{ℤ, pos, ◌-ℤ◌, ltb_ℤ}
use options_protocol_backend.Prelude.Decimal.{parse_int}
use options_protocol_backend.Exec.{Result, ok, err, raised, invalid_int, invalid_hex}

abbrev pub Bytes : Type 0
Bytes = List ℕ

abbrev pub hex_digit : ℕ → Option ℕ
hex_digit c =
    if leb b'0' c && leb c b'9'
    then some (c - b'0')
    else if leb b'a' c && leb c b'f'
    then some (c - 87)
    else if leb b'A' c && leb c b'F'
    then some (c - 55)
    else none

abbrev pub is_hex_space : ℕ → Bool
is_hex_space c = c == 32 || (leb 9 c && leb c 13)

abbrev push_byte : Option ℕ → Option ℕ → Option Bytes → Option Bytes
push_byte (some h) (some l) (some bs) = some ((h * 16 + l) ∷ bs)
push_byte _ _ _ = none

-- `bytes.fromhex(s)`: pairs of hexadecimal digits, with white space allowed between the pairs.
unfoldable pub from_hex : Text → Option Bytes
from_hex [] = some []
from_hex (a ∷ []) = if is_hex_space a then some [] else none
from_hex (a ∷ b ∷ s) = elim (is_hex_space a) [
  | true ↦ from_hex (b ∷ s)
  | false ↦ push_byte (hex_digit a) (hex_digit b) (from_hex s)
]

-- `message_hex[2:] if message_hex.startswith("0x") else message_hex`
unfoldable pub strip_0x : Text → Text
unfolding starts_with
strip_0x s = if starts_with s (codes "0x") then drop 2 s else s

-- `int.from_bytes(bs, "big")`
unfoldable pub from_bytes : Bytes → ℕ
from_bytes = foldl (λ n b. n * 256 + b) 0

-- `bs[lo:hi]`
abbrev pub slice : ℕ → ℕ → Bytes → Bytes
slice lo hi bs = take (hi - lo) (drop lo bs)

abbrev pub python_int : Text → Result ℤ
python_int s = elim (parse_int s) [ none ↦ err (invalid_int s) | some n ↦ ok n ]

infixl 10 ◌>>=◌
abbrev pub ◌>>=◌ : {A B : Type 0} → Result A → (A → Result B) → Result B
ok a >>= f = f a
err e >>= f = err e

abbrev pub fallback_amounts : Option Text → Result (ℤ × ℤ × ℤ)
fallback_amounts none = err (raised (codes "CCTP message too short to parse amount fields"))
fallback_amounts (some s) = do gross ← python_int s; ok (gross, pos 0, gross)

-- `if gross <= 0 and fallback_gross_amount is not None`
abbrev pub gross_or_fallback : ℕ → Option Text → Result ℤ
gross_or_fallback gross none = ok (pos gross)
gross_or_fallback gross (some s) = if leb gross 0 then python_int s else ok (pos gross)

abbrev pub net_of_fee : ℕ → ℤ → Result (ℤ × ℤ × ℤ)
net_of_fee fee gross =
    if ltb_ℤ gross (pos fee)
    then err (raised (codes "CCTP feeExecuted exceeds gross amount"))
    else ok (gross, pos fee, gross -ℤ pos fee)

unfoldable pub burn_amounts_of_body : Bytes → Option Text → Result (ℤ × ℤ × ℤ)
unfolding from_bytes
burn_amounts_of_body body fallback =
    gross_or_fallback (from_bytes (slice 68 100 body)) fallback
    >>= net_of_fee (from_bytes (slice 164 196 body))

unfoldable pub burn_amounts_of_message : Bytes → Option Text → Result (ℤ × ℤ × ℤ)
unfolding burn_amounts_of_body
burn_amounts_of_message message fallback =
    if ltb (length message) (148 + 196)
    then fallback_amounts fallback
    else burn_amounts_of_body (drop 148 message) fallback

unfoldable pub burn_amounts_of_decoded : Text → Option Bytes → Option Text → Result (ℤ × ℤ × ℤ)
burn_amounts_of_decoded hex none fallback = err (invalid_hex hex)
burn_amounts_of_decoded hex (some message) fallback = burn_amounts_of_message message fallback

-- (gross, fee, net)
unfoldable pub parse_cctp_v2_burn_amounts : Text → Option Text → Result (ℤ × ℤ × ℤ)
parse_cctp_v2_burn_amounts message_hex fallback =
    burn_amounts_of_decoded (strip_0x message_hex) (from_hex (strip_0x message_hex)) fallback
