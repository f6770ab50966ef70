-- ===== src/Quotes.antt =====
-- src/crypto/ed25519.py, `build_solana_quote_message`: the bytes of a quote that a market maker
-- signs. `struct.pack` of a number out of range raises, and its message is left empty.
pub mod Layout
mod Tests
use options_protocol_backend.Prelude.{
  ℕ, zero, suc, ◌+◌, ◌-◌, ◌*◌, ◌/◌, ◌%◌, ◌^◌, Bool, true, false, not, List, [], ◌∷◌, ◌++◌, length,
  ltb, ◌==◌, if◌then◌else◌,
}
use options_protocol_backend.Prelude.Text.{Text, codes}
use options_protocol_backend.Prelude.Decimal.{str_nat}
use options_protocol_backend.Prelude.Int.{ℤ, pos, negsuc}
use options_protocol_backend.Exec.{Exn, raised, external, Result, ok, err}
use options_protocol_backend.Bridge.Cctp.{Bytes}

-- The low `k` bytes, the lowest first.
unfoldable pub little_endian : ℕ → ℕ → Bytes
little_endian zero n = []
little_endian (suc k) n = (n % 256) ∷ little_endian k (n / 256)

abbrev out_of_range : Result Bytes
out_of_range = err (external [])

-- `struct.pack("<Q", n)`
unfoldable pub pack_u64 : ℤ → Result Bytes
pack_u64 (pos n) = if ltb n (2 ^ 64) then ok (little_endian 8 n) else out_of_range
pack_u64 (negsuc n) = out_of_range

-- `struct.pack("<q", n)`, in two's complement
unfoldable pub pack_i64 : ℤ → Result Bytes
pack_i64 (pos n) = if ltb n (2 ^ 63) then ok (little_endian 8 n) else out_of_range
pack_i64 (negsuc n) = if ltb n (2 ^ 63) then ok (little_endian 8 (2 ^ 64 - 1 - n)) else out_of_range

pub record Quote : Type 0 where
  pub otoken_mint : Bytes
  pub premium_mint : Bytes
  pub bid_price : ℤ
  pub deadline : ℤ
  pub quote_id : ℤ
  pub max_amount : ℤ
  pub maker_nonce : ℤ

infixl 10 ◌>>=◌
abbrev pub ◌>>=◌ : {A B : Type 0} → Result A → (A → Result B) → Result B
ok a >>= f = f a
err e >>= f = err e

abbrev pub wrong_length : Text → Bytes → Exn
wrong_length name bs = raised (name ++ (codes " must be 32 bytes, got " ++ str_nat (length bs)))

unfoldable pub pack_fields : Quote → Result Bytes
unfolding pack_u64 pack_i64
pack_fields q = do
  bid_price ← pack_u64 q.bid_price
  deadline ← pack_i64 q.deadline
  quote_id ← pack_u64 q.quote_id
  max_amount ← pack_u64 q.max_amount
  maker_nonce ← pack_u64 q.maker_nonce
  ok (
      q.otoken_mint
      ++ (q.premium_mint ++ (bid_price ++ (deadline ++ (quote_id ++ (max_amount ++ maker_nonce))))))

unfoldable pub build_solana_quote_message : Quote → Result Bytes
unfolding pack_fields
build_solana_quote_message q =
    if not (length q.otoken_mint == 32)
    then err (wrong_length (codes "otoken_mint") q.otoken_mint)
    else if not (length q.premium_mint == 32)
    then err (wrong_length (codes "premium_mint") q.premium_mint)
    else pack_fields q
