-- ===== src/Bridge/Routes/Checks.antt =====
-- src/bridge/routes.py: the checks of hashes and chains.
use options_protocol_backend.Prelude.{
  ℕ, Bool, true, false, not, ◌&&◌, ◌||◌, none, some, [], ◌∷◌, ◌++◌, length, take, drop, leb, ◌==◌,
  if◌then◌else◌,
}
use options_protocol_backend.Prelude.Text.{Text, codes, starts_with}
use options_protocol_backend.Exec.{Exn, Result, ok, err}
use options_protocol_backend.Bridge.{Chain, arc, base, solana, chain_eq}
use options_protocol_backend.Bridge.Cctp.{hex_digit}
use options_protocol_backend.Bridge.Routes.{http_error}

-- What the handlers take from elsewhere: the chains open in this environment, the text
-- `f"{type(exc).__name__}: {exc}"`, and the broadcast of a signed transaction on Solana.
pub record Services : Type 0 where
  pub is_chain_tradable : Chain → Bool
  pub described : Exn → Text
  pub broadcast : ℕ → Text → Result Text

abbrev every : (ℕ → Bool) → Text → Bool
every p [] = true
every p (c ∷ s) = p c && every p s

abbrev is_hex : ℕ → Bool
is_hex c = elim (hex_digit c) [ none ↦ false | some d ↦ true ]

-- `[1-9A-HJ-NP-Za-km-z]`
abbrev is_base58 : ℕ → Bool
is_base58 c =
    (leb b'1' c && leb c b'9')
    || ((leb b'A' c && leb c b'Z') && (not (c == b'I') && not (c == b'O')))
    || ((leb b'a' c && leb c b'z') && not (c == b'l'))

-- `$` also matches before a line feed that ends the text.
abbrev without_line_feed : Text → Text
without_line_feed [] = []
without_line_feed (c ∷ []) = if c == 10 then [] else c ∷ []
without_line_feed (c ∷ d ∷ s) = let rest = without_line_feed (d ∷ s) in c ∷ rest

-- a match of `^0x[0-9a-fA-F]{n}$`
unfoldable pub is_hex_of : ℕ → Text → Bool
unfolding starts_with
is_hex_of n s =
    let t = without_line_feed s in
    starts_with t (codes "0x") && (length (drop 2 t) == n && every is_hex (drop 2 t))

-- `SOLANA_SIG_RE`
unfoldable pub is_solana_signature : Text → Bool
is_solana_signature s =
    let t = without_line_feed s in leb 87 (length t) && (leb (length t) 88 && every is_base58 t)

abbrev pub Check : Type 0
Check = Result (Unit {0})

-- `_validate_tx_hash`
unfoldable pub validate_tx_hash : Text → Chain → Check
unfolding is_hex_of is_solana_signature
validate_tx_hash tx base =
    if is_hex_of 64 tx
    then ok tt
    else err (http_error 400 (codes "Invalid EVM tx hash: " ++ (take 20 tx ++ codes "...")))
validate_tx_hash tx solana =
    if is_solana_signature tx
    then ok tt
    else err (http_error 400 (codes "Invalid Solana signature: " ++ (take 20 tx ++ codes "...")))
validate_tx_hash tx arc = ok tt

-- `_validate_bridge_chains`; the text of a refusal leaves out the chain and the environment
unfoldable pub validate_bridge_chains : Services → Chain → Chain → Check
validate_bridge_chains services source dest =
    if chain_eq source dest
    then err (http_error 400 (codes "source_chain and dest_chain must differ"))
    else if services.is_chain_tradable source && services.is_chain_tradable dest
    then ok tt
    else err (http_error 403 (codes "Trading is disabled"))
