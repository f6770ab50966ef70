-- ===== src/Capital/Due.antt =====
-- src/capital_intents/routes.py: when the columns of an intent are due for an update.
use mathlib.Core.Bool.{true≢false}
use options_protocol_backend.Prelude.{
  ◌≡◌, refl, sym, ap, ◌∙◌, Bool, true, false, ◌||◌, none, some, if◌then◌else◌, ℕ, ==_iff, ◌==◌,
}
use options_protocol_backend.Prelude.Text.{codes}
use options_protocol_backend.Exec.{Exn}
use options_protocol_backend.Bridge.{keep_or}
use options_protocol_backend.Bridge.Routes.{http_error}
use options_protocol_backend.Capital.{IntentFields, CapitalIntentStatus, index, status_eq}
use options_protocol_backend.Capital.Sync.{has_updates, is_some}

abbrev pub loading : Exn
loading = http_error 502 (codes "Could not read linked bridge job")

abbrev pub syncing : Exn
syncing = http_error 502 (codes "Could not sync capital intent status")

-- `index` is injective
abbrev at_index : ℕ → CapitalIntentStatus
at_index n =
    if n == 0
    then CapitalIntentStatus.pending
    else if n == 1
    then CapitalIntentStatus.deposit_received
    else if n == 2
    then CapitalIntentStatus.bridging
    else if n == 3
    then CapitalIntentStatus.waiting_to_be_deployed
    else if n == 4
    then CapitalIntentStatus.deployment_in_flight
    else if n == 5
    then CapitalIntentStatus.deployed
    else if n == 6
    then CapitalIntentStatus.premium_earned
    else if n == 7
    then CapitalIntentStatus.assigned_rotating
    else if n == 8
    then CapitalIntentStatus.returning_to_arc
    else if n == 9
    then CapitalIntentStatus.returned_to_usdc
    else if n == 10
    then CapitalIntentStatus.claimable
    else if n == 11
    then CapitalIntentStatus.completed
    else if n == 12
    then CapitalIntentStatus.failed
    else CapitalIntentStatus.retryable

at_index-index : (s : CapitalIntentStatus) → at_index (index s) ≡ s
at_index-index CapitalIntentStatus.pending = refl
at_index-index CapitalIntentStatus.deposit_received = refl
at_index-index CapitalIntentStatus.bridging = refl
at_index-index CapitalIntentStatus.waiting_to_be_deployed = refl
at_index-index CapitalIntentStatus.deployment_in_flight = refl
at_index-index CapitalIntentStatus.deployed = refl
at_index-index CapitalIntentStatus.premium_earned = refl
at_index-index CapitalIntentStatus.assigned_rotating = refl
at_index-index CapitalIntentStatus.returning_to_arc = refl
at_index-index CapitalIntentStatus.returned_to_usdc = refl
at_index-index CapitalIntentStatus.claimable = refl
at_index-index CapitalIntentStatus.completed = refl
at_index-index CapitalIntentStatus.failed = refl
at_index-index CapitalIntentStatus.retryable = refl

status_eq-same : (a b : CapitalIntentStatus) → status_eq a b ≡ true → a ≡ b
status_eq-same a b h =
    sym (at_index-index a) ∙ ap at_index ((==_iff (index a) (index b)).0 h) ∙ at_index-index b

-- the status that is written, or kept
pub keep_status :
    (old next : CapitalIntentStatus) (b : Bool)
    → status_eq old next ≡ b
    → keep_or (if b then none else some next) old ≡ next
keep_status old next true e = status_eq-same old next e
keep_status old next false e = refl

-- `has_updates`, where the first test has come out as `b`
abbrev updates_from : Bool → IntentFields → Bool
updates_from b u =
    b
    || is_some u.destination_tx
    || is_some u.arc_receive_tx_hash
    || is_some u.arc_finalize_tx_hash
    || is_some u.gross_amount_usdc
    || is_some u.circle_fee_usdc
    || is_some u.net_amount_usdc
    || is_some u.failure_reason

first_test : (b : Bool) (u : IntentFields) → updates_from b u ≡ false → b ≡ false
first_test true u h = h
first_test false u h = refl

pub no_status : (u : IntentFields) → has_updates u ≡ false → is_some u.status ≡ false
no_status u h = first_test (is_some u.status) u h

pub not_due :
    (old next : CapitalIntentStatus) (b : Bool)
    → status_eq old next ≡ b
    → is_some (if b then none else some next) ≡ false
    → old ≡ next
not_due old next true e h = status_eq-same old next e
not_due old next false e h = absurd (true≢false h)
