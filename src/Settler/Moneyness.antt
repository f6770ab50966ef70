-- ===== src/Settler/Moneyness.antt =====
-- src/bots/expiry_settler.py, `identify_itm_positions`. The oracle is read once for each pair of an
-- underlying and an expiry; its answers may change from one read to the next.
use options_protocol_backend.Prelude.{
  ℕ, Bool, ◌&&◌, Option, none, some, List, [], ◌∷◌, ◌==◌, length, if◌then◌else◌,
}
use options_protocol_backend.Prelude.Text.{Text, text_eq}
use options_protocol_backend.Prelude.Int.{pos, ltb_ℤ}
use options_protocol_backend.Settler.{Position}

-- (underlying, expiry)
abbrev pub Key : Type 0
Key = Text × ℕ

abbrev pub key_eq : Key → Key → Bool
key_eq (u, e) (u', e') = text_eq u u' && (e == e')

abbrev pub Cache : Type 0
Cache = List (Key × Option ℕ)

unfoldable pub find_price : Key → Cache → Option (Option ℕ)
find_price k [] = none
find_price k ((k', p) ∷ c) = let rest = find_price k c in if key_eq k' k then some p else rest

abbrev pub cache_key : Position → Key
cache_key p = (p.underlying, p.expiry)

-- A put below its strike, or a call above it.
unfoldable pub is_itm : Position → ℕ → Bool
is_itm p price =
    if p.is_put then ltb_ℤ (pos price) p.strike_price else ltb_ℤ p.strike_price (pos price)

pub record Identified : Type 0 where
  pub itm : List (Position × ℕ)
  pub cache : Cache
  pub skipped : List (Text × ℕ)

abbrev pub keep_position : Position → Option (Option ℕ) → Identified → Identified
keep_position p (some (some price)) rest =
    if is_itm p price then record rest { itm = (p, price) ∷ rest.itm } else rest
keep_position p _ rest = record rest { skipped = (p.user_address, p.vault_id) ∷ rest.skipped }

-- The oracle's `n`th answer: `none` where it raises or the price is not final.
module _ (oracle : ℕ → Key → Option ℕ) where
  abbrev pub read_oracle : Key → Cache → Option (Option ℕ) → Cache
  read_oracle k c (some p) = c
  read_oracle k c none = (k, oracle (length c) k) ∷ c

  -- the cache once the price of `k` is in it
  unfoldable pub fill_cache : Key → Cache → Cache
  fill_cache k c = read_oracle k c (find_price k c)

  -- `skipped` is a set in the source, and a list here
  unfoldable pub identify : List Position → Cache → Identified
  unfolding fill_cache
  identify [] c = record { itm = []; cache = c; skipped = [] }
  identify (p ∷ ps) c =
      let c' = fill_cache (cache_key p) c in
      keep_position p (find_price (cache_key p) c') (identify ps c')

  unfoldable pub identify_itm_positions : List Position → Identified
  unfolding identify
  identify_itm_positions positions = identify positions []
