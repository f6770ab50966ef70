-- ===== src/Bridge/Routes/Reserved.antt =====
-- src/bridge/routes.py: a burn on Solana is broadcast after its reservation.
use options_protocol_backend.Prelude.{◌≡◌, ◌⊎◌, some, [], ◌∷◌, ◌++◌}
use options_protocol_backend.Prelude.Text.{Text, codes}
use options_protocol_backend.Exec.{Exn}
use options_protocol_backend.Exec.Post.{Post}
use options_protocol_backend.Bridge.{solana}
use options_protocol_backend.Bridge.Routes.{http_error}
use options_protocol_backend.Bridge.Routes.Checks.{Services}
use options_protocol_backend.Bridge.Routes.Burns.{
  SolanaCctpBurnSubmitRequest, reserved_job, burned_fields,
}
use options_protocol_backend.Store.{Env, World, submitted, update_rows}

abbrev checking : Exn
checking = http_error 502 (codes "Could not check active bridge jobs")

abbrev conflict : Text → Exn
conflict quote =
    http_error 409 (codes "Bridge job already exists or could not be reserved for quote " ++ quote)

module _ (env : Env) (services : Services) (body : SolanaCctpBurnSubmitRequest) (w : World) where
  -- no broadcast was answered by a signature, and nothing was queued
  abbrev pub Quiet : World → Type 0
  Quiet v = (v.calls ≡ w.calls) × (v.queue ≡ w.queue)

  -- the quote is the request's, and the row inserted for it carries it, with the hash of a reservation
  abbrev pub ForQuote : Text → Text → Type 0
  ForQuote quote id =
      (body.quote_id ≡ some quote)
      × ((reserved_job body quote id).quote_id ≡ some quote)
      × ((reserved_job body quote id).burn_tx_hash ≡ codes "pending:" ++ quote)

  -- a reservation was inserted
  abbrev pub Reserved : Text → Text → World → Type 0
  Reserved quote id v = ForQuote quote id × (v.jobs ≡ w.jobs ++ reserved_job body quote id ∷ [])

  abbrev sent : Text → World → World
  sent tx v = record v { calls = submitted solana body.signed_transaction_base64 ∷ v.calls }

  -- the burn of the request was broadcast, once
  abbrev pub Broadcast : World → Type 0
  Broadcast v = v.calls ≡ submitted solana body.signed_transaction_base64 ∷ w.calls

  -- what a request leaves that returns
  abbrev pub Submitted : Text × Text → World → Type 0
  Submitted r v =
      (quote : Text) × ForQuote quote r.1
      × Broadcast v
      × (v.queue ≡ w.queue ++ r.1 ∷ [])
      × (v.jobs ≡ update_rows r.1 (burned_fields r.0) (w.jobs ++ reserved_job body quote r.1 ∷ []))

  -- what a request leaves that raises
  abbrev pub Refused : World → Type 0
  Refused v =
      Quiet v
      ⊎ ((quote : Text) × (id : Text) × Broadcast v × (v.queue ≡ w.queue) × Reserved quote id v)

  -- between the reservation and the broadcast
  abbrev Ready : Text → World → Type 0
  Ready id v = Quiet v × ((quote : Text) × Reserved quote id v)

  -- after the broadcast
  abbrev Sent : Text → World → Type 0
  Sent id v = Broadcast v × (v.queue ≡ w.queue) × ((quote : Text) × Reserved quote id v)

  -- the row has the burn, and nothing is queued yet
  abbrev Burned : Text → Text → World → Type 0
  Burned id tx v =
      (quote : Text) × ForQuote quote id
      × Broadcast v
      × (v.queue ≡ w.queue)
      × (v.jobs ≡ update_rows id (burned_fields tx) (w.jobs ++ reserved_job body quote id ∷ []))
