-- ===== src/Capital/Keyed.antt =====
-- src/capital_intents/reconcile.py: the keys of rotation rows, and the rules for a round.
use options_protocol_backend.Prelude.{
  ℕ, suc, ◌≡◌, refl, ap, Bool, true, false, Option, none, some, List, [], ◌∷◌, ◌++◌, if◌then◌else◌,
}
use options_protocol_backend.Prelude.Text.{Text, codes, or_else}
use options_protocol_backend.Prelude.Int.{ℤ}
use options_protocol_backend.Exec.{Result, ok, err}
use options_protocol_backend.Exec.Post.{Outcome}
use options_protocol_backend.Bridge.{Chain}
use options_protocol_backend.Capital.{Intent, IntentFields}
use options_protocol_backend.Capital.Create.{is_venue}
use options_protocol_backend.Capital.Keys.{count}
use options_protocol_backend.Capital.Reconcile.{
  OrderEvent, Accounts, ReconcileSummary, rotation_intent, rotation_of, rotation_chain,
  rotation_idempotency_key, shown, positive_raw_amount, rotation_row, count_skipped,
  count_retryable, count_assigned, count_already, count_waiting,
}
use options_protocol_backend.Store.{World, update_intent_rows}

-- a rotation carries the key that was looked up
abbrev pub Keyed : Text → Option (Text → Intent) → Type 0
Keyed key none = Unit
Keyed key (some row) = (id : Text) → (row id).idempotency_key ≡ some key

if-Keyed :
    (b : Bool) (key : Text) (row : Text → Intent)
    → ((id : Text) → (row id).idempotency_key ≡ some key)
    → Keyed key (if b then some row else none)
if-Keyed true key row h = h
if-Keyed false key row h = tt

rotation_of-Keyed :
    (accounts : Accounts) (intent : Intent) (event : OrderEvent) (key : Text) (chain : Chain)
    (amount : Option ℤ)
    → Keyed key (rotation_of accounts intent event key chain amount)
unfolding rotation_intent
rotation_of-Keyed accounts intent event key chain none = tt
rotation_of-Keyed accounts intent event key chain (some amount) =
    if-Keyed (is_venue chain) key (rotation_intent accounts intent event key chain amount)
      (λ id. refl)

pub rotation_row-Keyed :
    (accounts : Accounts) (intent : Intent) (event : OrderEvent) (key : Text)
    → Keyed key (rotation_row accounts intent event key)
unfolding rotation_row
rotation_row-Keyed accounts intent event key =
    rotation_of-Keyed accounts intent event key (rotation_chain intent event)
      (positive_raw_amount event.collateral)

-- the transaction of an event, or of the intent where the event has none
abbrev event_tx : Option Text → Option Text → Text
event_tx (some (c ∷ s)) tx = c ∷ s
event_tx (some []) (some tx) = tx
event_tx none (some tx) = tx
event_tx _ none = codes "None"

-- The query for the intent's transaction has answered this event.
abbrev pub Read : (ℕ → Text → Result (Option OrderEvent)) → Intent → OrderEvent → Type 0
Read order_event i event =
    (n : ℕ) × (tx : Text) × (i.destination_tx ≡ some tx) × (order_event n tx ≡ ok (some event))

-- A key of the form `rotation:<id>:<tx>`, of one of these intents and an event that the query for its
-- transaction has answered.
abbrev pub IsRotationKey :
    (ℕ → Text → Result (Option OrderEvent)) → (Intent → Type 0) → Text → Type 0
IsRotationKey order_event F key =
    (i : Intent) × (event : OrderEvent) × F i
    × Read order_event i event
    × (key ≡ codes "rotation:" ++ (i.id ++ (codes ":" ++ event_tx event.tx_hash i.destination_tx)))

pub rotation_key_value :
    (i : Intent) (event : OrderEvent)
    → rotation_idempotency_key i event
      ≡ codes "rotation:" ++ (i.id ++ (codes ":" ++ event_tx event.tx_hash i.destination_tx))
unfolding rotation_idempotency_key
rotation_key_value i event =
    ap (λ t. codes "rotation:" ++ (i.id ++ (codes ":" ++ t)))
      (shown_tx event.tx_hash i.destination_tx)
  where
    shown_tx : (hash tx : Option Text) → shown (or_else hash tx) ≡ event_tx hash tx
    shown_tx (some (c ∷ s)) tx = refl
    shown_tx (some []) (some tx) = refl
    shown_tx (some []) none = refl
    shown_tx none (some tx) = refl
    shown_tx none none = refl

-- A predicate on the number of rounds, the counters and the intents that every step of a round keeps,
-- and what is left of it where a round raises.
pub record Steps (O : Text → Type 0) (P : ℕ → ReconcileSummary → List Intent → Type 0)
    (R : List Intent → Type 0) : Type 0 where
  pub updates :
      (n : ℕ) (s : ReconcileSummary) (id : Text) (f : IntentFields) (is : List Intent)
      → P n s is
      → P n s (update_intent_rows id f is)
  pub inserts :
      (n : ℕ) (s : ReconcileSummary) (key : Text) (i : Intent) (is : List Intent)
      → i.idempotency_key ≡ some key
      → O key
      → count key is ≡ 0
      → P n s is
      → P (suc n) (count_waiting s) (is ++ i ∷ [])
  pub skips : (n : ℕ) (s : ReconcileSummary) (is : List Intent) → P n s is → P (suc n) s is
  pub unsettled :
      (n : ℕ) (s : ReconcileSummary) (is : List Intent) → P n s is → P (suc n) (count_skipped s) is
  pub failed :
      (n : ℕ) (s : ReconcileSummary) (is : List Intent)
      → P n s is
      → P (suc n) (count_retryable s) is
  pub rotating :
      (n : ℕ) (s : ReconcileSummary) (is : List Intent) → P n s is → P (suc n) (count_assigned s) is
  pub repeated :
      (n : ℕ) (s : ReconcileSummary) (is : List Intent) → P n s is → P (suc n) (count_already s) is
  pub raises : (n : ℕ) (s : ReconcileSummary) (is : List Intent) → P n s is → R is

pub Result-Outcome :
    {A : Type 0} (Q : A → World → Type 0) (R : World → Type 0) (r : Result A) (w : World)
    → ((a : A) → r ≡ ok a → Q a w)
    → R w
    → Outcome Q (λ _. R) (r, w)
Result-Outcome Q R (ok a) w h k = h a refl
Result-Outcome Q R (err e) w h k = k
