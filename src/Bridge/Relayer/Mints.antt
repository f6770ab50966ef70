-- ===== src/Bridge/Relayer/Mints.antt =====
-- The mints among the calls of a run of `process_bridge_job` of src/bridge/relayer.py, and what a job
-- may be beside them.
use options_protocol_backend.Prelude.{ℕ, suc, ◌≤◌, Bool, true, false, ◌≡◌, ◌⊎◌, some, List, [], ◌∷◌}
use options_protocol_backend.Bridge.{failed, mint_completed_trade_failed, Job}
use options_protocol_backend.Store.{Call, minted, mint_raised, submitted, finalized}
use options_protocol_backend.Store.Laws.{View}
use options_protocol_backend.Bridge.Relayer.{is_trading, is_done}

-- Did a mint answer?
abbrev pub has_mint : List Call → Bool
has_mint [] = false
has_mint (mint_raised _ _ ∷ c) = has_mint c
has_mint (minted _ _ _ ∷ c) = true
has_mint (submitted _ _ ∷ c) = has_mint c
has_mint (finalized _ _ _ ∷ c) = has_mint c

-- How many calls for a mint were made, answered or not?
abbrev pub mint_calls : List Call → ℕ
mint_calls [] = 0
mint_calls (minted _ _ _ ∷ c) = suc (mint_calls c)
mint_calls (mint_raised _ _ ∷ c) = suc (mint_calls c)
mint_calls (submitted _ _ ∷ c) = mint_calls c
mint_calls (finalized _ _ _ ∷ c) = mint_calls c

-- `m` bounds the calls for a mint.
abbrev pub Unminted : ℕ → View
Unminted m o c =
    (j : Job) × (o ≡ some j)
    × (is_trading j.status ≡ false)
    × (has_mint c ≡ false)
    × (mint_calls c ≤ m)

abbrev pub Minted : ℕ → View
Minted m o c =
    (j : Job) × (o ≡ some j)
    × (is_trading j.status ≡ true)
    × (has_mint c ≡ true)
    × (mint_calls c ≤ m)

abbrev pub Delivered : ℕ → View
Delivered m o c =
    (j : Job) × (o ≡ some j) × (is_done j.status ≡ true) × (has_mint c ≡ true) × (mint_calls c ≤ m)

-- The job is done and its mint answered, failed and no mint answered, or failed after a mint that
-- answered; and there were at most `m` calls for a mint, answered or not.
abbrev pub Consistent : ℕ → View
Consistent m o c =
    (j : Job) × (o ≡ some j)
    × (((is_done j.status ≡ true) × (has_mint c ≡ true))
        ⊎ ((j.status ≡ failed) × (has_mint c ≡ false))
        ⊎ ((j.status ≡ mint_completed_trade_failed) × (has_mint c ≡ true)))
    × (mint_calls c ≤ m)

-- minted, and not yet recorded
abbrev pub Sent : ℕ → View
Sent m o c = (j : Job) × (o ≡ some j) × (has_mint c ≡ true) × (mint_calls c ≤ m)

abbrev pub Stopped : ℕ → View
Stopped m o c = Unminted m o c ⊎ Minted m o c

abbrev pub Never : View
Never o c = ⊥
