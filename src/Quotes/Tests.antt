-- ===== src/Quotes/Tests.antt =====
-- The theorem about quote messages at a concrete input.
use options_protocol_backend.Prelude.{◌≡◌, refl, length, take, drop, replicate, arith}
use options_protocol_backend.Exec.{ok}
use options_protocol_backend.Bridge.Cctp.{Bytes}
use options_protocol_backend.Quotes.{build_solana_quote_message}
use options_protocol_backend.Quotes.Layout.{quote_of, u64_at, build_solana_quote_message-layout}

abbrev otoken : Bytes
otoken = replicate 32 7

abbrev premium : Bytes
premium = replicate 32 9

build_solana_quote_message-layout_example :
    (m : Bytes) × (build_solana_quote_message (quote_of otoken premium 1500 1700000000 3 100 4)
      ≡ ok m)
    × (length m ≡ 104)
    × (take 32 m ≡ otoken)
    × (take 32 (drop 32 m) ≡ premium)
    × (u64_at 64 m ≡ 1500)
    × (u64_at 72 m ≡ 1700000000)
    × (u64_at 80 m ≡ 3)
    × (u64_at 88 m ≡ 100)
    × (u64_at 96 m ≡ 4)
build_solana_quote_message-layout_example =
    build_solana_quote_message-layout otoken premium 1500 1700000000 3 100 4 refl refl (omega arith)
      (omega arith) (omega arith) (omega arith) (omega arith)
