-- ===== src/Quotes/Layout.antt =====
-- Where each field of a quote stands in the message of `build_solana_quote_message` in
-- src/crypto/ed25519.py.
use native.Mathlib.Nat.{pow-suc}
use options_protocol_backend.Prelude.{drop_past, drop-append, take-append, take-length}
use options_protocol_backend.Prelude.{
  ℕ, zero, suc, ◌+◌, ◌*◌, ◌/◌, ◌^◌, ◌<◌, true, ◌≡◌, refl, ap, ◌∙◌, [], ◌∷◌, ◌++◌, length,
  length-append, take, drop, ltb, arith,
}
use options_protocol_backend.Prelude.Int.{pos}
use options_protocol_backend.Exec.{ok}
use options_protocol_backend.Bridge.Cctp.{Bytes}
use options_protocol_backend.Quotes.{
  little_endian, pack_u64, pack_i64, Quote, pack_fields, build_solana_quote_message,
}

-- The number that bytes stand for, the lowest byte first.
abbrev pub from_little_endian : Bytes → ℕ
from_little_endian [] = 0
from_little_endian (b ∷ bs) = b + 256 * from_little_endian bs

from_little_endian-little_endian :
    (k n : ℕ) → n < 256 ^ k → from_little_endian (little_endian k n) ≡ n
unfolding little_endian
from_little_endian-little_endian zero n h = omega (arith, h)
from_little_endian-little_endian (suc k) n h =
    let bound : n < 256 ^ k * 256 = rw (← pow-suc) h in
    rw (from_little_endian-little_endian k (n / 256) (omega (arith, bound))) (omega arith)

length-little_endian : (k n : ℕ) → length (little_endian k n) ≡ k
unfolding little_endian
length-little_endian zero n = refl
length-little_endian (suc k) n = ap suc (length-little_endian k (n / 256))

lt-true : (a b : ℕ) → a < b → ltb a b ≡ true
lt-true a b h = ground (arith, h)

pack_u64_value : (n : ℕ) → n < 2 ^ 64 → pack_u64 (pos n) ≡ ok (little_endian 8 n)
unfolding pack_u64
pack_u64_value n h = rw (lt-true n (2 ^ 64) h) refl

pack_i64_value : (n : ℕ) → n < 2 ^ 63 → pack_i64 (pos n) ≡ ok (little_endian 8 n)
unfolding pack_i64
pack_i64_value n h = rw (lt-true n (2 ^ 63) h) refl

-- the number in the eight bytes at an offset
abbrev pub u64_at : ℕ → Bytes → ℕ
u64_at offset message = from_little_endian (take 8 (drop offset message))

u64_first : (n : ℕ) (rest : Bytes) → n < 2 ^ 64 → u64_at 0 (little_endian 8 n ++ rest) ≡ n
u64_first n rest h =
    ap from_little_endian (take-append 8 (little_endian 8 n) rest (length-little_endian 8 n))
    ∙ from_little_endian-little_endian 8 n h

u64_last : (n : ℕ) → n < 2 ^ 64 → u64_at 0 (little_endian 8 n) ≡ n
u64_last n h =
    ap from_little_endian (take-length 8 (little_endian 8 n) (length-little_endian 8 n))
    ∙ from_little_endian-little_endian 8 n h

u64_past : (a n : ℕ) (rest : Bytes) → u64_at (8 + a) (little_endian 8 n ++ rest) ≡ u64_at a rest
u64_past a n rest =
    ap (λ l. from_little_endian (take 8 l))
      (drop_past 8 a (little_endian 8 n) rest (length-little_endian 8 n))

mint_past :
    (a : ℕ) (mint rest : Bytes) → length mint ≡ 32 → u64_at (32 + a) (mint ++ rest) ≡ u64_at a rest
mint_past a mint rest h = ap (λ l. from_little_endian (take 8 l)) (drop_past 32 a mint rest h)

module _ (otoken premium : Bytes) (bid deadline quote max_amount nonce : ℕ) where
  abbrev pub quote_of : Quote
  quote_of = record {
    otoken_mint = otoken;
    premium_mint = premium;
    bid_price = pos bid;
    deadline = pos deadline;
    quote_id = pos quote;
    max_amount = pos max_amount;
    maker_nonce = pos nonce;
  }

  abbrev numbers : Bytes
  numbers =
      little_endian 8 bid
      ++ (little_endian 8 deadline
          ++ (little_endian 8 quote ++ (little_endian 8 max_amount ++ little_endian 8 nonce)))

  module _ (otoken_length : length otoken ≡ 32) (premium_length : length premium ≡ 32)
      (bid_fits : bid < 2 ^ 64) (deadline_fits : deadline < 2 ^ 63) (quote_fits : quote < 2 ^ 64)
      (max_fits : max_amount < 2 ^ 64) (nonce_fits : nonce < 2 ^ 64) where
    built : build_solana_quote_message quote_of ≡ ok (otoken ++ (premium ++ numbers))
    unfolding build_solana_quote_message pack_fields
    built =
        rw
          (
            otoken_length,
            premium_length,
            pack_u64_value bid bid_fits,
            pack_i64_value deadline deadline_fits,
            pack_u64_value quote quote_fits,
            pack_u64_value max_amount max_fits,
            pack_u64_value nonce nonce_fits,
          )
          refl

    length-numbers : length numbers ≡ 40
    length-numbers =
        length-append (little_endian 8 bid) _
        ∙ eight bid (
            length-append (little_endian 8 deadline) _
            ∙ eight deadline (
                length-append (little_endian 8 quote) _
                ∙ eight quote (
                    length-append (little_endian 8 max_amount) _
                    ∙ eight max_amount (length-little_endian 8 nonce))))
      where
        eight : (n : ℕ) {a b : ℕ} → a ≡ b → length (little_endian 8 n) + a ≡ 8 + b
        eight n h = omega (arith, h, length-little_endian 8 n)

    message_length : length (otoken ++ (premium ++ numbers)) ≡ 104
    message_length = omega (
      arith,
      length-append {0} otoken (premium ++ numbers),
      length-append {0} premium numbers,
      length-numbers,
      otoken_length,
      premium_length,
    )

    after_mints :
        (a : ℕ) → u64_at (32 + (32 + a)) (otoken ++ (premium ++ numbers)) ≡ u64_at a numbers
    after_mints a =
        mint_past (32 + a) otoken (premium ++ numbers) otoken_length
        ∙ mint_past a premium numbers premium_length

    -- Where the mints have 32 bytes, the deadline is a time before 2^63 and the other numbers are
    -- below 2^64, the message is built, has 104 bytes, starts with the two mints, and holds each
    -- number in its own eight bytes, the lowest byte first.
    pub build_solana_quote_message-layout :
        (m : Bytes) × (build_solana_quote_message quote_of ≡ ok m)
        × (length m ≡ 104)
        × (take 32 m ≡ otoken)
        × (take 32 (drop 32 m) ≡ premium)
        × (u64_at 64 m ≡ bid)
        × (u64_at 72 m ≡ deadline)
        × (u64_at 80 m ≡ quote)
        × (u64_at 88 m ≡ max_amount)
        × (u64_at 96 m ≡ nonce)
    build_solana_quote_message-layout = (
      otoken ++ (premium ++ numbers),
      built,
      message_length,
      take-append 32 otoken (premium ++ numbers) otoken_length,
      ap (take 32) (drop-append 32 otoken (premium ++ numbers) otoken_length)
          ∙ take-append 32 premium numbers premium_length,
      after_mints 0 ∙ u64_first bid _ bid_fits,
      after_mints 8 ∙ (u64_past 0 bid _ ∙ u64_first deadline _ (omega (arith, deadline_fits))),
      after_mints 16 ∙ (u64_past 8 bid _ ∙ (u64_past 0 deadline _ ∙ u64_first quote _ quote_fits)),
      after_mints 24
          ∙ (u64_past 16 bid _
              ∙ (u64_past 8 deadline _ ∙ (u64_past 0 quote _ ∙ u64_first max_amount _ max_fits))),
      after_mints 32
          ∙ (u64_past 24 bid _
              ∙ (u64_past 16 deadline _
                  ∙ (u64_past 8 quote _ ∙ (u64_past 0 max_amount _ ∙ u64_last nonce nonce_fits)))),
    )
