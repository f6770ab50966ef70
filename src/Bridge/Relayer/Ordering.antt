-- ===== src/Bridge/Relayer/Ordering.antt =====
-- What a run of `process_bridge_job` of src/bridge/relayer.py between Base and Solana does to the
-- chains, whatever the database and the chains answer.
use options_protocol_backend.Prelude.{Bool, true, false, not, ◌&&◌, ◌≡◌, List, [], ◌∷◌}
use options_protocol_backend.Prelude.Text.{Text}
use options_protocol_backend.Exec.Post.{Post}
use options_protocol_backend.Store.{Call, minted, mint_raised, submitted, finalized}
use options_protocol_backend.Store.Laws.{View}
use options_protocol_backend.Bridge.Relayer.Mints.{has_mint}

abbrev pub has_submission : List Call → Bool
has_submission [] = false
has_submission (submitted _ _ ∷ c) = true
has_submission (minted _ _ _ ∷ c) = has_submission c
has_submission (mint_raised _ _ ∷ c) = has_submission c
has_submission (finalized _ _ _ ∷ c) = has_submission c

-- Of the calls of a run, latest first: at most one mint answers, and at most one trade, which comes
-- after the mint; a mint that raises comes before both.
abbrev pub is_ordered : List Call → Bool
is_ordered [] = true
is_ordered (minted _ _ _ ∷ c) = not (has_mint c) && not (has_submission c) && is_ordered c
is_ordered (mint_raised _ _ ∷ c) = not (has_mint c) && not (has_submission c) && is_ordered c
is_ordered (submitted _ _ ∷ c) = has_mint c && not (has_submission c) && is_ordered c
is_ordered (finalized _ _ _ ∷ c) = false

abbrev IsFresh : View
IsFresh o c = (has_mint c ≡ false) × (has_submission c ≡ false) × (is_ordered c ≡ true)

abbrev IsSent : View
IsSent o c = (has_mint c ≡ true) × (has_submission c ≡ false) × (is_ordered c ≡ true)

abbrev IsOrdered : View
IsOrdered o c = is_ordered c ≡ true
