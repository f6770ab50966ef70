-- ===== src/Lib.antt =====
-- The backend of an options protocol, in the parts that move money: the bridge of USDC between Base,
-- Solana and Arc, the capital intents linked to it, the indexer of orders, the settlement of expired
-- options, the makers' quotes, and the division of yield. Paths below are those of the repository.
--
-- - Prelude: shared names, Boolean tests, lists, Python's `str` as a list of code points, its `int`,
--   and decimal numerals.
-- - Exec: Python code that changes shared state and may raise, as a function from a state to a result
--   and a state; what was written before a raise stays. Exec.Post has one rule of pre- and
--   postconditions for each way to build such code.
-- - Store: the tables `bridge_jobs` and `capital_movement_intents`, the relayer's queue, the calls
--   made to the chains, and an environment that answers each call to Supabase, to a chain or to
--   Circle by a result or an exception. A call to a chain that raises may have been carried out, since
--   the wait for its receipt raises too (src/contracts/web3_client.py): a mint, a redemption, an
--   increment of the nonce, a transfer of yield and each transaction of the Solana settler are
--   listed also where they raise. Store.Laws: one job and the calls, call by call.
-- - Bridge: rows and states of src/bridge/models.py. Bridge.Cctp is the parser of burn messages of
--   src/bridge/cctp.py, against an encoder of Circle's layout in Bridge.Cctp.Encoding.
--   Bridge.Relayer, with Arc and Process, is src/bridge/relayer.py: `process_bridge_job` from the
--   read of a job to the clause that marks it failed. Each of its updates goes through `update_job`
--   to Capital.Sync. Bridge.Routes is the creation of a job in src/bridge/routes.py,
--   Bridge.Routes.Checks its checks of hashes and chains, Bridge.Routes.Burns the handlers of a
--   request for a job and of the submission of a burn on Solana with its reservation.
-- - Capital: rows of src/capital_intents/models.py. Capital.Sync is src/capital_intents/sync.py,
--   Capital.Create the validation of a new intent and the bridge job that
--   src/capital_intents/routes.py writes for it. Capital.Routes is the creation and the reading of an
--   intent in that file, by the queries of Capital.Table, and Capital.Reconcile the pass of
--   src/capital_intents/reconcile.py. Keys, Rules, Once, Linked, Repeat, Due, OnRead, Keyed, Rotation and
--   Reconciled hold the proofs about them.
-- - Indexer: src/bots/event_indexer.py. Events is the fetch and store of orders, Deliveries that of
--   deliveries, Cycle is `index_once` and the handlers of the subscription. A pass gets the answers
--   of the node and of the database as a record of functions.
-- - Settler: src/bots/expiry_settler.py. Moneyness says which positions are in the money, Amounts is
--   the amounts of a physical settlement. State, Delivery, Batches and Cycle are a whole cycle, from
--   the positions that its queries return: the calls to the chain and the writes to `order_events`.
--   Steps, Confirmed, Safety and Retries hold the proofs about it.
-- - Solana: src/bots/solana_expiry_settler.py. Prices is phase 0, Vaults phase 1, Moneyness and Redeem
--   phase 2 with the amounts of Amounts, Cycle the whole of `settle_once`; State has the calls and the
--   environment. Quoted, Rules, Identified and Redeemed hold the proofs. Pyth has the readers of Pyth's
--   messages, against an encoder in Pyth.Encoding.
-- - Quotes: `build_solana_quote_message` of src/crypto/ed25519.py.
-- - Pricing: src/pricing. Expiries is utils.py, with its proofs in Fridays and Offered; Breaker is
--   circuit_breaker.py, with its proofs in Separate.
-- - Yield: `calculate_allocations` of src/yield_tracking/calculator.py. Yield.Airdrop is
--   `run_airdrop` of src/bots/yield_airdrop.py, over the tables of Yield.Tables. Shares, Owed, Rules,
--   Steps and Conserved hold the proofs about it.
-- - Market: the table `mm_quotes`. Verify and Submit are `submit_quotes` of src/api/mm_routes.py, Halt
--   its `cancel_quotes` and `invalidate_quotes` of src/bots/circuit_breaker_bot.py, Serve the way from
--   the table to the quotes of `get_prices` in src/api/routes.py. Rows, Signed, Checked, Written and
--   Submitted hold the proofs about Submit, Halted those about Halt, Best and Served those about Serve.
--
-- The share of a yield is assumed accurate to one part in 2 ^ 50, which `int(d * (w / t))` is for the
-- amounts of a chain: each of its three roundings to a float has a relative error of at most 2 ^ -53.
-- `_compute_contra_amount` is read for underlyings of at least 8 decimals; below, Python computes a float.
--
-- The poll of Circle's API is a loop on fuel, one more than the time-out in seconds, since each round
-- adds at least a second where the interval is not 0. The batches of a settlement are cut on fuel
-- for the number of positions, since each takes at least one. All other loops recurse on a list or on the number of attempts.
--
-- Not modelled: web3, solders, Supabase and Circle, which are the environment; waits, time stamps
-- and log lines; amounts that the source computes as floats, where the result is a parameter (the
-- share of a yield, the slippage in basis points, the order of bids) or the column is left out (`collateral_usd`); the
-- lookup of oToken metadata with its cache, which is an answer of a pass; the tasks that drain the
-- queue and hold the websocket open; the remaining routes and bots, and the prices, volatilities and premiums.
pub mod Prelude
pub mod Exec
pub mod Bridge
pub mod Capital
pub mod Store
pub mod Indexer
pub mod Settler
pub mod Yield
pub mod Market
pub mod Pricing
pub mod Solana
pub mod Quotes
