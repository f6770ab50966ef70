-- ===== src/Solana/Pyth.antt =====
-- src/bots/solana_expiry_settler.py: the readers of Pyth's messages, byte by byte.
pub mod Encoding
use options_protocol_backend.Prelude.{
  ℕ, zero, suc, ◌+◌, ◌-◌, ◌*◌, ◌^◌, Bool, true, false, ◌&&◌, ◌||◌, not, Option, none, some, List,
  [], ◌∷◌, ◌++◌, length, take, drop, ltb, leb, ◌==◌, if◌then◌else◌,
}
use options_protocol_backend.Prelude.Text.{Text, codes, text_eq}
use options_protocol_backend.Prelude.Int.{ℤ, pos, negsuc}
use options_protocol_backend.Exec.{Exn, raised, external, Result, ok, err}
use options_protocol_backend.Bridge.Cctp.{Bytes, from_bytes, slice, ◌>>=◌}

-- `_PYTH_ACCUMULATOR_MAGIC` and the two version bytes
abbrev pub magic : Bytes
magic = 80 ∷ 78 ∷ 65 ∷ 85 ∷ 1 ∷ 0 ∷ []

abbrev pub hash_size : ℕ
hash_size = 20

abbrev pub first_byte : Bytes → Result ℕ
first_byte [] = err (external (codes "index out of range"))
first_byte (b ∷ bs) = ok b

-- `bs[i]`
abbrev pub byte_at : ℕ → Bytes → Result ℕ
byte_at i bs = first_byte (drop i bs)

-- a message with its Merkle proof
abbrev pub Update : Type 0
Update = Bytes × List Bytes

-- the proof items from `cursor` on
unfoldable pub read_proof : Bytes → ℕ → ℕ → List Bytes
read_proof bs zero cursor = []
read_proof bs (suc n) cursor =
    slice cursor (cursor + hash_size) bs ∷ read_proof bs n (cursor + hash_size)

abbrev pub Updates : Type 0
Updates = List Update × ℕ

abbrev pub with_update : Update → Updates → Result Updates
with_update u (us, cursor) = ok (u ∷ us, cursor)

-- the proof of a message, and the updates after it, which `next` reads
abbrev pub read_proof_and : Bytes → (ℕ → Result Updates) → ℕ → Bytes → ℕ → Result Updates
read_proof_and bs next cursor message num_proofs =
    next (cursor + num_proofs * hash_size)
    >>= with_update (message, read_proof bs num_proofs cursor)

abbrev pub read_message : Bytes → (ℕ → Result Updates) → ℕ → ℕ → Result Updates
read_message bs next cursor message_size =
    byte_at (cursor + message_size) bs
    >>= read_proof_and bs next (cursor + message_size + 1) (slice cursor (cursor + message_size) bs)

-- the updates from `cursor` on, and where they end
unfoldable pub read_updates : Bytes → ℕ → ℕ → Result Updates
unfolding read_proof
read_updates bs zero cursor = ok ([], cursor)
read_updates bs (suc n) cursor =
    read_message bs (read_updates bs n) (cursor + 2) (from_bytes (slice cursor (cursor + 2) bs))

abbrev pub require_end : Bytes → Bytes → Updates → Result (Bytes × List Update)
require_end bs vaa (updates, cursor) =
    if cursor == length bs
    then ok (vaa, updates)
    else err (raised (codes "Trailing bytes in Pyth accumulator update"))

abbrev pub read_counted : Bytes → ℕ → Bytes → ℕ → Result (Bytes × List Update)
read_counted bs cursor vaa num_updates = read_updates bs num_updates cursor >>= require_end bs vaa

abbrev pub read_vaa : Bytes → ℕ → ℕ → Result (Bytes × List Update)
read_vaa bs cursor vaa_size =
    if leb (length bs) (cursor + vaa_size)
    then err (raised (codes "Pyth accumulator missing updates"))
    else byte_at (cursor + vaa_size) bs
      >>= read_counted bs (cursor + vaa_size + 1) (slice cursor (cursor + vaa_size) bs)

-- from the attestation's size on, which stands after the trailing payload and the proof's type
abbrev pub read_payload : Bytes → ℕ → Result (Bytes × List Update)
read_payload bs trailing_payload_size =
    let cursor = 7 + trailing_payload_size + 1 in
    read_vaa bs (cursor + 2) (from_bytes (slice cursor (cursor + 2) bs))

-- `_parse_pyth_accumulator_update`
unfoldable pub parse_pyth_accumulator_update : Bytes → Result (Bytes × List Update)
unfolding read_updates
parse_pyth_accumulator_update bs =
    if ltb (length bs) 11 || not (text_eq (slice 0 6 bs) magic)
    then err (raised (codes "Invalid Pyth accumulator update"))
    else byte_at 6 bs >>= read_payload bs

pub record PriceFeed : Type 0 where
  pub feed_id : Bytes
  pub price : ℤ
  pub conf : ℕ
  pub exponent : ℤ
  pub publish_time : ℕ

-- `int.from_bytes(bs, "big", signed=True)` of `k` bytes
abbrev pub from_signed : ℕ → Bytes → ℤ
from_signed k bs =
    let n = from_bytes bs in if ltb n (2 ^ (8 * k - 1)) then pos n else negsuc (2 ^ (8 * k) - 1 - n)

abbrev pub price_feed_of : Bytes → ℕ → Result PriceFeed
price_feed_of bs variant =
    if variant == 0
    then ok (record {
      feed_id = slice 1 33 bs;
      price = from_signed 8 (slice 33 41 bs);
      conf = from_bytes (slice 41 49 bs);
      exponent = from_signed 4 (slice 49 53 bs);
      publish_time = from_bytes (slice 53 61 bs);
    })
    else err (raised (codes "Pyth message is not a price feed update"))

-- `_parse_price_feed_message`, with the feed's id as bytes
unfoldable pub parse_price_feed_message : Bytes → Result PriceFeed
parse_price_feed_message bs =
    if ltb (length bs) 85
    then err (raised (codes "Pyth price feed message too short"))
    else byte_at 0 bs >>= price_feed_of bs

abbrev pub signature_size : ℕ
signature_size = 66

abbrev pub trim_to : ℕ → Bytes → ℕ → Result Bytes
trim_to max_signatures vaa current =
    if ltb current max_signatures
    then err (raised (codes "Pyth VAA has fewer guardian signatures than required"))
    else if current == max_signatures
    then ok vaa
    else let trimmed =
        take (6 + max_signatures * signature_size) vaa ++ drop (6 + current * signature_size) vaa in
      ok (take 5 trimmed ++ max_signatures ∷ drop 6 trimmed)

-- `_trim_pyth_vaa_signatures`
unfoldable pub trim_pyth_vaa_signatures : ℕ → Bytes → Result Bytes
trim_pyth_vaa_signatures max_signatures vaa =
    if ltb (length vaa) 6
    then err (raised (codes "Pyth VAA too short"))
    else byte_at 5 vaa >>= trim_to max_signatures vaa

-- `_pyth_guardian_set_index`
unfoldable pub pyth_guardian_set_index : Bytes → Result ℕ
pyth_guardian_set_index vaa =
    if ltb (length vaa) 5
    then err (raised (codes "Pyth VAA too short for guardian set index"))
    else ok (from_bytes (slice 1 5 vaa))
