-- ===== src/Bridge/Cctp/Encoding.antt =====
-- Burn messages in Circle's layout as hexadecimal text, and what `parse_cctp_v2_burn_amounts` of
-- src/bridge/cctp.py reads in them.
use mathlib.Core.List.{foldl-append, append_assoc}
use native.Mathlib.Nat.{pow-suc}
use options_protocol_backend.Prelude.{drop-append, take-append}
use options_protocol_backend.Prelude.{
  ℕ, zero, suc, ◌+◌, ◌*◌, ◌/◌, ◌%◌, ◌^◌, ◌≤◌, ◌<◌, false, ◌≡◌, refl, ap, ◌∙◌, Option, none, some,
  [], ◌∷◌, ◌++◌, length, length-append, All, ltb, arith, if◌then◌else◌,
}
use options_protocol_backend.Prelude.Text.{Text, codes, starts_with}
use options_protocol_backend.Prelude.Int.{pos, ◌-ℤ◌}
use options_protocol_backend.Exec.{ok}
use options_protocol_backend.Bridge.Cctp.{
  Bytes, hex_digit, is_hex_space, from_hex, strip_0x, from_bytes, slice, gross_or_fallback,
  net_of_fee, ◌>>=◌, burn_amounts_of_body, burn_amounts_of_message, burn_amounts_of_decoded,
  parse_cctp_v2_burn_amounts,
}

-- The big-endian bytes of a number, `n.to_bytes(k, "big")`.
unfoldable pub to_bytes : ℕ → ℕ → Bytes
to_bytes zero n = []
to_bytes (suc k) n = to_bytes k (n / 256) ++ (n % 256) ∷ []

abbrev hex_char : ℕ → ℕ
hex_char n = if ltb n 10 then n + b'0' else n + 87

unfoldable pub to_hex : Bytes → Text
to_hex [] = []
to_hex (b ∷ bs) = hex_char (b / 16) ∷ hex_char (b % 16) ∷ to_hex bs

abbrev IsByte : ℕ → Type 0
IsByte b = b < 256

from_bytes-append : (bs : Bytes) (b : ℕ) → from_bytes (bs ++ b ∷ []) ≡ from_bytes bs * 256 + b
unfolding from_bytes
from_bytes-append bs b = rw foldl-append

pub from_bytes-to_bytes : (k n : ℕ) → n < 256 ^ k → from_bytes (to_bytes k n) ≡ n
unfolding to_bytes
from_bytes-to_bytes zero n h = unfold from_bytes in omega arith
from_bytes-to_bytes (suc k) n h =
    let bound : n < 256 ^ k * 256 = rw (← pow-suc) h in
    rw (from_bytes-append, from_bytes-to_bytes k (n / 256) (omega arith)) (omega arith)

pub length-to_bytes : (k n : ℕ) → length (to_bytes k n) ≡ k
unfolding to_bytes
length-to_bytes zero n = refl
length-to_bytes (suc k) n =
    omega (
      arith,
      length-append {0} (to_bytes k (n / 256)) ((n % 256) ∷ []),
      length-to_bytes k (n / 256),
    )

hex_digit-hex_char : (n : ℕ) → n < 16 → hex_digit (hex_char n) ≡ some n
hex_digit-hex_char n h = ground arith

hex_char-space : (n : ℕ) → n < 16 → is_hex_space (hex_char n) ≡ false
hex_char-space n h = ground arith

from_hex-pair :
    (a c x y : ℕ) (s : Text) (bs : Bytes)
    → is_hex_space a ≡ false
    → hex_digit a ≡ some x
    → hex_digit c ≡ some y
    → from_hex s ≡ some bs
    → from_hex (a ∷ c ∷ s) ≡ some ((x * 16 + y) ∷ bs)
unfolding from_hex
from_hex-pair a c x y s bs text high low rest = ground arith

from_hex-to_hex : (bs : Bytes) → All IsByte bs → from_hex (to_hex bs) ≡ some bs
unfolding to_hex
from_hex-to_hex [] h = unfold from_hex in refl
from_hex-to_hex (b ∷ bs) h =
    from_hex-pair (hex_char (b / 16)) (hex_char (b % 16)) (b / 16) (b % 16) (to_hex bs) bs
      (hex_char-space (b / 16) (omega arith)) (hex_digit-hex_char (b / 16) (omega arith))
      (hex_digit-hex_char (b % 16) (omega arith)) (from_hex-to_hex bs h.1)
    ∙ ap (λ x. some (x ∷ bs)) (omega arith)

lt-false : (a b : ℕ) → b ≤ a → ltb a b ≡ false
lt-false a b h = ground arith

strip_0x-prefix : (s : Text) → strip_0x (codes "0x" ++ s) ≡ s
unfolding strip_0x starts_with
strip_0x-prefix s = refl

-- The layout of a burn message around its two amounts.
pub record Layout : Type 0 where
  pub header : Bytes
  pub before_amount : Bytes
  pub before_fee : Bytes
  pub hook : Bytes

abbrev pub body_of : Layout → ℕ → ℕ → Bytes
body_of l amount fee =
    l.before_amount ++ (to_bytes 32 amount ++ (l.before_fee ++ (to_bytes 32 fee ++ l.hook)))

abbrev pub message_of : Layout → ℕ → ℕ → Bytes
message_of l amount fee = l.header ++ body_of l amount fee

pub record IsLayout (l : Layout) : Type 0 where
  pub header_length : length l.header ≡ 148
  pub before_amount_length : length l.before_amount ≡ 68
  pub before_fee_length : length l.before_fee ≡ 64
  pub header_bytes : All IsByte l.header
  pub before_amount_bytes : All IsByte l.before_amount
  pub before_fee_bytes : All IsByte l.before_fee
  pub hook_bytes : All IsByte l.hook

All-append : (xs ys : Bytes) → All IsByte xs → All IsByte ys → All IsByte (xs ++ ys)
All-append [] ys h g = g
All-append (x ∷ xs) ys h g = (h.0, All-append xs ys h.1 g)

to_bytes-IsByte : (k n : ℕ) → All IsByte (to_bytes k n)
unfolding to_bytes
to_bytes-IsByte zero n = tt
to_bytes-IsByte (suc k) n =
    All-append (to_bytes k (n / 256)) ((n % 256) ∷ []) (to_bytes-IsByte k (n / 256))
      (omega arith, tt)

module _ (amount fee : ℕ) (amount_fits : amount < 256 ^ 32) (fee_fits : fee < 256 ^ 32) where
  module _ (l : Layout) (v : IsLayout l) where
    amount_at : slice 68 100 (body_of l amount fee) ≡ to_bytes 32 amount
    amount_at = rw (
      drop-append 68 l.before_amount _ v.before_amount_length,
      take-append 32 (to_bytes 32 amount) _ (length-to_bytes 32 amount),
    )

    before_length : length (l.before_amount ++ (to_bytes 32 amount ++ l.before_fee)) ≡ 164
    before_length = omega (
      arith,
      length-append {0} l.before_amount (to_bytes 32 amount ++ l.before_fee),
      length-append {0} (to_bytes 32 amount) l.before_fee,
      length-to_bytes 32 amount,
      v.before_amount_length,
      v.before_fee_length,
    )

    regroup :
        body_of l amount fee
        ≡ (l.before_amount ++ (to_bytes 32 amount ++ l.before_fee)) ++ (to_bytes 32 fee ++ l.hook)
    regroup = simp append_assoc

    fee_at : slice 164 196 (body_of l amount fee) ≡ to_bytes 32 fee
    fee_at = rw (
      regroup,
      drop-append 164 (l.before_amount ++ (to_bytes 32 amount ++ l.before_fee)) _ before_length,
      take-append 32 (to_bytes 32 fee) _ (length-to_bytes 32 fee),
    )

    message_bytes : All IsByte (message_of l amount fee)
    message_bytes = All-append l.header _ v.header_bytes (
        All-append l.before_amount _ v.before_amount_bytes (
          All-append (to_bytes 32 amount) _ (to_bytes-IsByte 32 amount) (
            All-append l.before_fee _ v.before_fee_bytes
              (All-append (to_bytes 32 fee) l.hook (to_bytes-IsByte 32 fee) v.hook_bytes))))

    message_length : ltb (length (message_of l amount fee)) (148 + 196) ≡ false
    message_length = lt-false _ _ (
        omega (
          arith,
          length-append {0} l.header (body_of l amount fee),
          length-append {0} l.before_amount
              (to_bytes 32 amount ++ (l.before_fee ++ (to_bytes 32 fee ++ l.hook))),
          length-append {0} (to_bytes 32 amount) (l.before_fee ++ (to_bytes 32 fee ++ l.hook)),
          length-append {0} l.before_fee (to_bytes 32 fee ++ l.hook),
          length-append {0} (to_bytes 32 fee) l.hook,
          length-to_bytes 32 amount,
          length-to_bytes 32 fee,
          v.header_length,
          v.before_amount_length,
          v.before_fee_length,
        ))

    module _ (positive : 0 < amount) (covered : fee ≤ amount) (fallback : Option Text) where
      body_amounts :
          burn_amounts_of_body (body_of l amount fee) fallback
          ≡ ok (pos amount, pos fee, pos amount -ℤ pos fee)
      unfolding burn_amounts_of_body
      body_amounts =
          rw
            (
              amount_at,
              fee_at,
              from_bytes-to_bytes 32 amount amount_fits,
              from_bytes-to_bytes 32 fee fee_fits,
            )
            (no_fallback fallback)
        where
          no_fallback :
              (o : Option Text)
              → (gross_or_fallback amount o >>= net_of_fee fee)
                ≡ ok (pos amount, pos fee, pos amount -ℤ pos fee)
          no_fallback none = ground arith
          no_fallback (some s) = ground arith

      decoded_amounts :
          burn_amounts_of_decoded
            (to_hex (message_of l amount fee))
            (some (message_of l amount fee))
            fallback
          ≡ ok (pos amount, pos fee, pos amount -ℤ pos fee)
      unfolding burn_amounts_of_decoded burn_amounts_of_message
      decoded_amounts =
          rw (message_length, drop-append 148 l.header (body_of l amount fee) v.header_length)
            body_amounts

      -- A message in Circle's layout whose amount is positive and covers the fee, both of 32 bytes,
      -- is read back from its hexadecimal text as amount, fee and their difference, whatever the
      -- fallback is.
      pub parse_cctp_v2_burn_amounts-message_of :
          parse_cctp_v2_burn_amounts (codes "0x" ++ to_hex (message_of l amount fee)) fallback
          ≡ ok (pos amount, pos fee, pos amount -ℤ pos fee)
      unfolding parse_cctp_v2_burn_amounts
      parse_cctp_v2_burn_amounts-message_of =
          rw
            (
              strip_0x-prefix (to_hex (message_of l amount fee)),
              from_hex-to_hex (message_of l amount fee) message_bytes,
            )
            decoded_amounts
