-- ===== src/Solana/Pyth/Encoding.antt =====
-- Pyth's accumulator update as it is laid out, and what `_parse_pyth_accumulator_update` of
-- src/bots/solana_expiry_settler.py reads in it.
use mathlib.Core.Path.{subst}
use options_protocol_backend.Prelude.{
  ℕ, suc, ◌+◌, ◌-◌, ◌*◌, ◌≤◌, ◌<◌, ◌≡◌, refl, sym, ap, ◌∙◌, true, false, List, [], ◌∷◌, ◌++◌,
  length, length-append, take, drop, take-append, drop-append, drop-drop, All, ltb, leb, ◌==◌,
  ==_iff, arith,
}
use options_protocol_backend.Prelude.Text.{text_eq}
use options_protocol_backend.Exec.{ok}
use options_protocol_backend.Bridge.Cctp.{Bytes, from_bytes, slice, ◌>>=◌}
use options_protocol_backend.Bridge.Cctp.Encoding.{to_bytes, from_bytes-to_bytes, length-to_bytes}
use options_protocol_backend.Solana.Pyth.{
  magic, hash_size, first_byte, byte_at, Update, read_proof, with_update, read_proof_and,
  read_message, read_updates, require_end, read_counted, read_vaa, read_payload,
  parse_pyth_accumulator_update,
}

-- the items of a proof, and what follows
abbrev pub put_items : List Bytes → Bytes → Bytes
put_items [] rest = rest
put_items (x ∷ xs) rest = x ++ put_items xs rest

abbrev pub put_update : Update → Bytes → Bytes
put_update (message, proof) rest =
    to_bytes 2 (length message) ++ (message ++ (length proof ∷ put_items proof rest))

abbrev pub put_updates : List Update → Bytes → Bytes
put_updates [] rest = rest
put_updates (u ∷ us) rest = put_update u (put_updates us rest)

-- a whole message, with a trailing payload and the type of the proof
abbrev pub encode : Bytes → ℕ → Bytes → List Update → Bytes
encode trailing proof_type vaa us =
    magic
    ++ (length trailing
        ∷ (trailing
            ++ (proof_type
                ∷ (to_bytes 2 (length vaa) ++ (vaa ++ (length us ∷ put_updates us []))))))

abbrev pub IsUpdate : Update → Type 0
IsUpdate u = (length u.0 < 65536) × (length u.1 < 256) × All (λ x. length x ≡ hash_size) u.1

-- `bs` goes on with `rest` at `cursor`, and ends there.
abbrev At : Bytes → ℕ → Bytes → Type 0
At bs cursor rest = (drop cursor bs ≡ rest) × (cursor + length rest ≡ length bs)

-- a field of `n` bytes is read, and the cursor moves past it
read_field :
    (bs : Bytes) (cursor n : ℕ) (x rest : Bytes)
    → length x ≡ n
    → At bs cursor (x ++ rest)
    → (slice cursor (cursor + n) bs ≡ x) × At bs (cursor + n) rest
read_field bs cursor n x rest size (e, l) =
    let span : cursor + n - cursor ≡ n = omega arith in
    (
      ap (λ k. take k (drop cursor bs)) span ∙ (ap (take n) e ∙ take-append n x rest size),
      (
        sym (drop-drop cursor n bs) ∙ (ap (drop n) e ∙ drop-append n x rest size),
        omega (arith, l, length-append x rest, size),
      ),
    )

read_byte :
    (bs : Bytes) (cursor b : ℕ) (rest : Bytes)
    → At bs cursor (b ∷ rest)
    → (byte_at cursor bs ≡ ok b) × At bs (cursor + 1) rest
read_byte bs cursor b rest h = (ap first_byte h.0, (read_field bs cursor 1 (b ∷ []) rest refl h).1)

-- a number of two bytes
read_size :
    (bs : Bytes) (cursor n : ℕ) (rest : Bytes)
    → n < 65536
    → At bs cursor (to_bytes 2 n ++ rest)
    → (from_bytes (slice cursor (cursor + 2) bs) ≡ n) × At bs (cursor + 2) rest
read_size bs cursor n rest bound h =
    let field = read_field bs cursor 2 (to_bytes 2 n) rest (length-to_bytes 2 n) h in
    (ap from_bytes field.0 ∙ from_bytes-to_bytes 2 n bound, field.1)

read_proof-put_items :
    (bs : Bytes) (xs : List Bytes) (cursor : ℕ) (rest : Bytes)
    → All (λ x. length x ≡ hash_size) xs
    → At bs cursor (put_items xs rest)
    → (read_proof bs (length xs) cursor ≡ xs) × At bs (cursor + length xs * hash_size) rest
unfolding read_proof
read_proof-put_items bs [] cursor rest sizes h =
    let e : cursor ≡ cursor + 0 * hash_size = omega arith in (refl, subst (λ k. At bs k rest) e h)
read_proof-put_items bs (x ∷ xs) cursor rest (size, sizes) h =
    let field = read_field bs cursor hash_size x (put_items xs rest) size h in
    let next = read_proof-put_items bs xs (cursor + hash_size) rest sizes field.1 in
    let e : cursor + hash_size + length xs * hash_size ≡ cursor + suc (length xs) * hash_size =
      omega arith in
    (
      ap (λ y. y ∷ read_proof bs (length xs) (cursor + hash_size)) field.0
          ∙ ap (λ ys. x ∷ ys) next.0,
      subst (λ k. At bs k rest) e next.1,
    )

-- the updates are read, up to some cursor
abbrev Consumed : Bytes → List Update → ℕ → Bytes → Type 0
Consumed bs us cursor rest =
    (end_ : ℕ) × (read_updates bs (length us) cursor ≡ ok (us, end_)) × At bs end_ rest

read_updates-put_updates :
    (bs : Bytes) (us : List Update) (cursor : ℕ) (rest : Bytes)
    → All IsUpdate us
    → At bs cursor (put_updates us rest)
    → Consumed bs us cursor rest
unfolding read_updates
read_updates-put_updates bs [] cursor rest fits h = (cursor, refl, h)
read_updates-put_updates bs ((message, proof) ∷ us) cursor rest ((short, few, sizes), fits) h =
    let n = length message in
    let next = read_updates bs (length us) in
    let size = read_size bs cursor n _ short h in
    let body = read_field bs (cursor + 2) n message _ refl size.1 in
    let num = read_byte bs (cursor + 2 + n) (length proof) _ body.1 in
    let items =
      read_proof-put_items bs proof (cursor + 2 + n + 1) (put_updates us rest) sizes num.1 in
    let (end_, tail, at) =
      read_updates-put_updates bs us (cursor + 2 + n + 1 + length proof * hash_size) rest fits
        items.1 in
    (
      end_,
      ap (read_message bs next (cursor + 2)) size.0
          ∙ (ap
                (λ r.
                  r
                  >>= read_proof_and bs next (cursor + 2 + n + 1)
                      (slice (cursor + 2) (cursor + 2 + n) bs))
                num.0
              ∙ (ap (λ m. read_proof_and bs next (cursor + 2 + n + 1) m (length proof)) body.0
                  ∙ (ap
                        (λ r.
                          r
                          >>= with_update
                              (message, read_proof bs (length proof) (cursor + 2 + n + 1)))
                        tail
                      ∙ ap (λ ps. ok ((message, ps) ∷ us, end_)) items.0))),
      at,
    )

beyond : (size cursor n : ℕ) → cursor + suc n ≡ size → leb size cursor ≡ false
beyond size cursor n h = ground arith

no_less : (size m : ℕ) → m ≤ size → ltb size m ≡ false
no_less size m h = ground arith

ended :
    (bs vaa : Bytes) (us : List Update) (end_ : ℕ)
    → At bs end_ []
    → require_end bs vaa (us, end_) ≡ ok (vaa, us)
ended bs vaa us end_ h =
    let same : (end_ == length bs) ≡ true = (==_iff end_ (length bs)).1 (omega (arith, h.1)) in
    rw same refl

read_vaa-put_updates :
    (bs : Bytes) (cursor : ℕ) (vaa : Bytes) (us : List Update)
    → length vaa < 65536
    → All IsUpdate us
    → At bs cursor (vaa ++ (length us ∷ put_updates us []))
    → read_vaa bs cursor (length vaa) ≡ ok (vaa, us)
read_vaa-put_updates bs cursor vaa us short fits h =
    let body = read_field bs cursor (length vaa) vaa _ refl h in
    let num = read_byte bs (cursor + length vaa) (length us) _ body.1 in
    let (end_, read, at) = read_updates-put_updates bs us (cursor + length vaa + 1) [] fits num.1 in
    let more : leb (length bs) (cursor + length vaa) ≡ false =
      beyond (length bs) (cursor + length vaa) (length (put_updates us [])) body.1.1 in
    rw more (
      ap
        (λ r.
          r >>= read_counted bs (cursor + length vaa + 1) (slice cursor (cursor + length vaa) bs))
        num.0
      ∙ (ap (λ v. read_counted bs (cursor + length vaa + 1) v (length us)) body.0
          ∙ (ap (λ r. r >>= require_end bs vaa) read ∙ ended bs vaa us end_ at)))

-- Any accumulator update that is laid out as Pyth does, with an attestation and messages of fewer than
-- 65536 bytes and proofs of fewer than 256 hashes, is read back as its attestation and its updates,
-- each message with its own proof, whatever trailing payload and type of proof it carries.
pub parse_pyth_accumulator_update-encode :
    (trailing : Bytes) (proof_type : ℕ) (vaa : Bytes) (us : List Update)
    → length trailing < 256
    → length vaa < 65536
    → length us < 256
    → All IsUpdate us
    → parse_pyth_accumulator_update (encode trailing proof_type vaa us) ≡ ok (vaa, us)
unfolding parse_pyth_accumulator_update text_eq
parse_pyth_accumulator_update-encode trailing proof_type vaa us few short count fits =
    let bs = encode trailing proof_type vaa us in
    let start : At bs 6 (drop 6 bs) = (refl, omega arith) in
    let payload = read_byte bs 6 (length trailing) _ start in
    let skipped = read_field bs 7 (length trailing) trailing _ refl payload.1 in
    let kind = read_byte bs (7 + length trailing) proof_type _ skipped.1 in
    let size = read_size bs (7 + length trailing + 1) (length vaa) _ short kind.1 in
    let long : ltb (length bs) 11 ≡ false =
      no_less (length bs) 11
        (omega (arith, size.1.1, length-append vaa (length us ∷ put_updates us []))) in
    rw long (
      ap (λ r. r >>= read_payload bs) payload.0
      ∙ (ap (read_vaa bs (7 + length trailing + 1 + 2)) size.0
          ∙ read_vaa-put_updates bs (7 + length trailing + 1 + 2) vaa us short fits size.1))
