-- ===== src/Pricing/Breaker.antt =====
-- src/pricing/circuit_breaker.py: quoting stops for an asset whose price has moved too far. Prices are
-- floats and stay a type of their own: `trips` is the test of a reference and a price against
-- `circuit_breaker_threshold`, `reason` the text of it. Instants are numbers.
use options_protocol_backend.Prelude.{
  ℕ, Bool, true, false, Option, none, some, List, [], ◌∷◌, any, if◌then◌else◌,
}
use options_protocol_backend.Prelude.Text.{Text, text_eq, lower}

module _ (Price : Type 0) where
  pub record AssetState : Type 0 where
    pub reference_price : Option Price
    pub reference_time : Option ℕ
    pub is_paused : Bool
    pub paused_at : Option ℕ
    pub pause_reason : Option Text

  -- the dictionary of states, in the order of insertion
  abbrev pub CircuitBreaker : Type 0
  CircuitBreaker = List (Text × AssetState)

  -- The methods that may change a state, with the instant at which they run.
  pub data Operation : Type 0 where
    update_reference : Price → Text → ℕ → Operation
    check : Price → Text → ℕ → Operation
    resume : Price → Text → ℕ → Operation

module _ {Price : Type 0} where
  abbrev pub new_state : AssetState Price
  new_state = record {
    reference_price = none;
    reference_time = none;
    is_paused = false;
    paused_at = none;
    pause_reason = none;
  }

  -- `_get`: the state of a key, a new one where it has none
  unfoldable pub get_state : Text → CircuitBreaker Price → AssetState Price
  get_state key [] = new_state
  get_state key ((k, s) ∷ b) = if text_eq k key then s else get_state key b

  -- the dictionary with the state of a key changed, which `_get` has inserted where it was missing
  unfoldable pub put_state : Text → AssetState Price → CircuitBreaker Price → CircuitBreaker Price
  put_state key s [] = (key, s) ∷ []
  put_state key s ((k, t) ∷ b) =
      let rest = put_state key s b in if text_eq k key then (k, s) ∷ b else (k, t) ∷ rest

  abbrev pub referenced : Price → ℕ → AssetState Price
  referenced price now = record {
    reference_price = some price;
    reference_time = some now;
    is_paused = false;
    paused_at = none;
    pause_reason = none;
  }

  unfoldable pub is_paused_for : Text → CircuitBreaker Price → Bool
  unfolding get_state
  is_paused_for asset b = (get_state (lower asset) b).is_paused

  -- the property `is_paused`
  unfoldable pub any_paused : CircuitBreaker Price → Bool
  any_paused b = any (λ e. e.1.is_paused) b

  abbrev pub asset_of : Operation Price → Text
  asset_of (update_reference price asset now) = lower asset
  asset_of (check price asset now) = lower asset
  asset_of (resume price asset now) = lower asset

  module _ (trips : Price → Price → Bool) (reason : Text → Price → Price → Text) where
    abbrev pub check_reference :
        Price → Text → ℕ → AssetState Price → Option Price → AssetState Price
    check_reference price asset now s none = referenced price now
    check_reference price asset now s (some reference) =
        if trips reference price
        then record s {
          is_paused = true;
          paused_at = some now;
          pause_reason = some (reason asset reference price);
        }
        else s

    -- what a method makes of the state of its asset
    unfoldable pub step : Operation Price → AssetState Price → AssetState Price
    step (update_reference price asset now) s = referenced price now
    step (check price asset now) s = check_reference price asset now s s.reference_price
    step (resume price asset now) s = referenced price now

    -- what `check` answers, from the state before it
    abbrev pub answer_reference : Price → Option Price → Bool
    answer_reference price none = false
    answer_reference price (some reference) = trips reference price

    unfoldable pub check_answer : Price → Text → CircuitBreaker Price → Bool
    unfolding get_state
    check_answer price asset b = answer_reference price (get_state (lower asset) b).reference_price

    unfoldable pub run : List (Operation Price) → CircuitBreaker Price → CircuitBreaker Price
    unfolding step get_state put_state
    run [] b = b
    run (op ∷ ops) b = run ops (put_state (asset_of op) (step op (get_state (asset_of op) b)) b)
