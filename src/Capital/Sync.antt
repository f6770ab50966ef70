-- ===== src/Capital/Sync.antt =====
-- src/capital_intents/sync.py: each update of a bridge job is carried over to the intents that are
-- linked to it.
use options_protocol_backend.Prelude.{
  Bool, true, false, not, ◌&&◌, ◌||◌, Option, none, some, take, if◌then◌else◌,
}
use options_protocol_backend.Prelude.Text.{Text, truthy}
use options_protocol_backend.Exec.{pure, for_each, ◌>>=◌}
use options_protocol_backend.Bridge.{BridgeJobState, BridgeFields, overlay}
use options_protocol_backend.Capital.{
  CapitalIntentType, CapitalIntentStatus, Intent, IntentFields, status_eq,
}
use options_protocol_backend.Store.{Env, Action, select_linked_intents, update_intent_row}

abbrev arrived : CapitalIntentType → CapitalIntentStatus
arrived CapitalIntentType.deposit = CapitalIntentStatus.waiting_to_be_deployed
arrived CapitalIntentType.returning = CapitalIntentStatus.returned_to_usdc
arrived CapitalIntentType.deployment = CapitalIntentStatus.deployed

-- The last line of the source, for a status that is no `BridgeJobState`, is out of reach here.
unfoldable pub bridge_status_to_intent_status :
    BridgeJobState → CapitalIntentType → CapitalIntentStatus
bridge_status_to_intent_status BridgeJobState.pending t = CapitalIntentStatus.bridging
bridge_status_to_intent_status BridgeJobState.attesting t = CapitalIntentStatus.bridging
bridge_status_to_intent_status BridgeJobState.minting t = CapitalIntentStatus.bridging
bridge_status_to_intent_status BridgeJobState.trading t = CapitalIntentStatus.deployment_in_flight
bridge_status_to_intent_status BridgeJobState.completed t = arrived t
bridge_status_to_intent_status BridgeJobState.mint_completed t = arrived t
bridge_status_to_intent_status BridgeJobState.mint_completed_trade_failed t =
    CapitalIntentStatus.retryable
bridge_status_to_intent_status BridgeJobState.failed t = CapitalIntentStatus.failed

-- `d.get(key)` of a key that may be missing or hold `None`
abbrev flat : Option (Option Text) → Option Text
flat none = none
flat (some v) = v

-- `v` where it is truthy
abbrev pub present : Option Text → Option Text
present v = if truthy v then v else none

-- a status at which an old failure is forgotten
abbrev is_settled_status : CapitalIntentStatus → Bool
is_settled_status CapitalIntentStatus.waiting_to_be_deployed = true
is_settled_status CapitalIntentStatus.returned_to_usdc = true
is_settled_status CapitalIntentStatus.deployed = true
is_settled_status _ = false

-- The transaction shown for the destination: of Arc's finalize, else of the trade, else of the mint
-- where the intent has none.
abbrev next_destination : BridgeFields → Intent → Option Text
next_destination f i = overlay (present f.arc_finalize_tx_hash) (
    overlay (present f.trade_tx_hash)
      (if truthy i.destination_tx then none else present f.mint_tx_hash))

-- `str(error_message)[:500]`
abbrev truncated : Option Text → Option Text
truncated none = none
truncated (some s) = some (take 500 s)

abbrev next_failure : BridgeFields → Intent → CapitalIntentStatus → Option (Option Text)
next_failure f i next =
    if is_settled_status next && truthy i.failure_reason
    then some none
    else if truthy (flat f.error_message) && not (truthy i.failure_reason)
    then some (truncated (flat f.error_message))
    else none

unfoldable pub intent_updates : BridgeFields → BridgeJobState → Intent → IntentFields
unfolding bridge_status_to_intent_status
intent_updates f status i =
    let next = bridge_status_to_intent_status status i.intent_type in
    record {
      status = if status_eq i.status next then none else some next;
      bridge_job_id = none;
      destination_tx = next_destination f i;
      arc_receive_tx_hash = present f.arc_receive_tx_hash;
      arc_finalize_tx_hash = present f.arc_finalize_tx_hash;
      gross_amount_usdc = present f.gross_amount_usdc;
      circle_fee_usdc = present f.circle_fee_usdc;
      net_amount_usdc = present f.net_amount_usdc;
      failure_reason = next_failure f i next;
    }

abbrev pub is_some {ℓ} : {A : Type ℓ} → Option A → Bool
is_some none = false
is_some (some a) = true

-- `bool(updates)`
abbrev pub has_updates : IntentFields → Bool
has_updates u =
    is_some u.status
    || is_some u.destination_tx
    || is_some u.arc_receive_tx_hash
    || is_some u.arc_finalize_tx_hash
    || is_some u.gross_amount_usdc
    || is_some u.circle_fee_usdc
    || is_some u.net_amount_usdc
    || is_some u.failure_reason

module _ (env : Env) where
  unfoldable pub sync_intent : BridgeFields → BridgeJobState → Intent → Action Unit
  sync_intent f status i =
      let updates = intent_updates f status i in
      if has_updates updates then update_intent_row env i.id updates else pure tt

  abbrev pub sync_with_status : Text → BridgeFields → Option BridgeJobState → Action Unit
  sync_with_status job_id f none = pure tt
  sync_with_status job_id f (some status) = do
    intents ← select_linked_intents env job_id
    for_each intents (sync_intent f status)

  unfoldable pub sync_capital_intents_for_bridge_job : Text → BridgeFields → Action Unit
  unfolding sync_intent
  sync_capital_intents_for_bridge_job job_id f = sync_with_status job_id f f.status
