-- ===== src/Lib.antt =====
-- Agnostic Market: the stores that hold a caller's orders, cart, verification and authority, and the
-- registry of sessions that lets one worker at a time write what outlives it.
--
-- A voice agent proposes, and these stores decide. A caller's session reads orders through the
-- identity store, proves who speaks through the verification store, changes its cart through
-- confirmed mutations, and acts on orders through the effects of the order store. Each of these
-- calls carries an idempotency key, since the graph that drives them may be replayed. What a session
-- keeps beyond its worker, the cart and the recent orders among it, is sealed by the cipher and
-- published to the session registry, where a worker holds a session by a lease with a fencing
-- generation, until the session is closed and erased.
--
-- Files, with the code they model under src/agnostic_market/:
-- - Orders: commerce/orders.py. `OrderStore` with its fixture orders, its ledgers of placements,
--   refunds, returns and cancellations by idempotency key, and the set of voided orders. Orders/Types
--   has the records, Orders/Store the reads, Orders/Effects the methods place_cart, issue_refund,
--   create_return and cancel_order with their receipts. Orders/Ledgers to Orders/Balance hold the
--   proof that no order gives back more than it captured, Orders/Growth and Orders/Replay what the
--   ledgers keep.
-- - Receipts: commerce/receipts.py, the outcome of a read of a ledger.
-- - Cart: commerce/cart.py. Cart/Types has the records, Cart/Store the methods of `CartStore`,
--   Cart/State its checkpointed state.
-- - Verification: commerce/verification.py. Verification/Provider and Verification/Cleanup are
--   `OtpProvider`, Verification/Store and Verification/Session `VerificationStore` over any `OtpPort`,
--   Verification/Risk `RiskProvider`. Verification/Fixture puts the two together.
-- - Identity: commerce/identity.py from `CallerIdentityStore` on, and `GuestOrderScope` of
--   commerce/orders.py in Identity/Guests.
-- - Spoken: `spoken_digits` of commerce/spoken.py.
-- - Money: dtos/money.py. Orders/Types also has `normalize_tenant_id` of tenancy/context.py.
-- - Encryption: durability/encryption.py, the envelope of a session's data and its cipher.
-- - Session: Session/Recent is `RecentOrderContext` of commerce/orders.py, Session/Payload
--   durability/session_payload.py, Session/Bounded the bound on what a context keeps.
-- - Registry: durability/session_registry.py. Registry/Types has the records, Registry/Database
--   the tables with the constraints of durability/migrations.py and the statements,
--   Registry/Generations the checkpoint generations with the binding of checkpoints.py,
--   Registry/Admission how a method finds and holds its session, Registry/Envelopes what is
--   sealed. The methods are in Registry/Leases (register_and_acquire, activate, renew, get),
--   Registry/Publication (restore, publish), Registry/Reconciliation, Registry/Rotation (the
--   begin of a rotation and the inventory), Registry/Switching (its switch and the deletion after
--   it), Registry/Closing (begin_close, claim_expired, refresh_close and the deletion of
--   checkpoints), Registry/Finalizing (finalize_close) and Registry/Reaping (expired_sessions,
--   purge_closed_tombstones, tenant_durable_row_counts). Registry/Bound and Registry/InMemory are
--   `BoundCheckpointGenerationAuthority` and `InMemoryCheckpointGenerationAuthority`.
--   Registry/Calls is a list of calls of the registry. Registry/Rows to Registry/Registering show
--   how each method moves the record of its session and nothing of the others, Registry/Inversion
--   to Registry/Erasing what calls and methods that returned have done, and Registry/Destination
--   to Registry/Rotated what a switch of the authorities has.
-- - Base, Text, Dict and Effect are shared: tests on numbers and lists, strings with strip and
--   upper, dictionaries in insertion order, and methods that may raise. A method is a function
--   from a store to an answer or an exception and the store it leaves, so that what was written
--   before a raise stays written.
--
-- How values are modelled:
-- - A text is a list of code points, and strip, upper and lower work on those of ASCII.
-- - An amount is a number of cents once `validate_usd` has checked it; before that it is a decimal
--   with a sign, a coefficient and a number of places, or a NaN or an infinity.
-- - A time is a number of clock ticks. The clock's readings and the random ids of challenges and
--   proofs are arguments of the calls that take them.
-- - A record is built with its field constraints as a Boolean test, and a test that fails is the
--   exception `validation`. The texts of a `VerificationSubject` and of a request are those that
--   pydantic has stripped.
-- - A call that holds a lock is one step. Sequences of calls are lists, of any length; no definition
--   takes fuel, since every loop runs over a list.
-- - The customer directory behind `match_contact`, the parsing of a timestamp, and the provider
--   behind an `OtpPort` are parameters. That a provider keeps its tenant is the hypothesis
--   `KeepsTenant`, which holds for `OtpProvider`.
-- - The database of the registry is a value with its tables as lists of rows. A transaction is a
--   function that answers and leaves the next database, or raises and leaves none, since PostgreSQL
--   rolls it back. The row lock makes each method one step, and what it reads of the clock, once
--   with the row and once per later statement, is an argument, in microseconds. A duration is not
--   finite, not positive, or a number of microseconds. The order of texts is that of their code
--   points. The constraints that a request's own model implies, as that an identifier has no spaces,
--   are left out of the tables.
-- - AES-GCM, the associated data, the JSON of pydantic, SHA-256 and the nonces are parameters. That
--   AES-GCM opens what it sealed is the hypothesis `Opens`.
--
-- Not modelled: the sentences that are spoken to a caller, the listings of orders, the extraction of
-- order references and contacts from speech, the loading of configuration and fixtures, lost
-- connections and timeouts of the database and the range of its bigint columns, row level security,
-- the supervisor that renews a lease, the store of checkpoints
-- itself, the lifecycle of tenants, the graphs of the agents, the management workbench and the voice
-- pipeline.
pub mod Base
pub mod Text
pub mod Dict
pub mod Effect
pub mod Money
pub mod Receipts
pub mod Orders
pub mod Cart
pub mod Spoken
pub mod Verification
pub mod Identity
pub mod Encryption
pub mod Session
pub mod Registry
