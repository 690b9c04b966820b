-- ===== src/Lib.antt =====
-- The money flow of the offline payment backend (backend/), over its PostgreSQL tables.
--
-- A payer funds an offline ceiling: money moves from the main account into a lien, and the bank signs a
-- ceiling token. Offline, the payer signs payment tokens against it, each bound to a payee's request.
-- Either party uploads claims; an accepted claim moves its amount from a suspense account to the
-- payee's pending account (Phase 4a). Finalization shares the ceiling out over the payer's pending
-- claims: what is covered goes from the lien to the payee's main account, the suspense account is
-- made good, and what is not covered is reversed (Phase 4b). Ceilings that are drained, recovered or
-- expired return what is left to the main account. Gossip blobs carry claims over other devices.
-- Online, a transfer is accepted with an event in the outbox; a dispatcher publishes the events, and
-- processors move the money of transfers and finalize payers. At night, balances are compared with the
-- ledger.
--
-- Parts, by file (paths below backend/internal):
-- - Base: Boolean tests and lists over native numbers; Base/Int, signed integers for kobo amounts.
-- - Domain: domain/*.go. Status holds the enumerations and the payment state machine, Tokens the
--   records on the wire, Validate the `Validate` methods, Laws
--   what `GossipBlob.Validate` lets pass.
-- - Crypto: crypto/ed25519.go, the verification of tokens. Ed25519, SHA-256 and the encodings are
--   parameters.
-- - Store: repository/pgrepo/repo.go over db/queries and the constraints of db/migrations. A world is
--   the database and what lies outside it (ids drawn, clock readings, signals and messages); a call
--   returns `ok` or `err` with the world it leaves; `tx` rolls the database back on an error and fails
--   at the commit where a transaction id that it posted under is out of balance. Rows holds the tables, Accounts, Ceilings,
--   Payments, Transactions and Transfers (repository/transferrepo and fraudrepo) the queries. Gauge,
--   Keeps and Runs are the rules for do blocks: how a call moves a number read off the database, what
--   it leaves alone, and what its steps did when it succeeded.
-- - Settlement: service/settlement/service.go. `submit_one` is `submitOne` in Claim (its guards, in
--   order), Submit (their composition) and Accept (the transaction); `submit_claim` is
--   `SubmitClaim`; Finalize is `FinalizeForPayer`; Enqueue is the outbox and the stale sweep.
--   Process is `FinalizeProcessor.process` of processor.go.
-- - Wallet: service/wallet/service.go. Fund, Release, Recover and Balances hold the operations of the
--   same names.
-- - Fraud: service/fraud/service.go, the clamp of a requested ceiling by tier.
-- - Transfer: service/transfer and service/fraud/transfer_scorer.go. Limits is limits.go, Accept is
--   `InitiateTransfer`, Scoring the fraud rules, Process `Processor.process`, Dispatch one cycle of the
--   outbox dispatcher. The cache, the publishing and the decoding of payloads are parameters.
-- - Gossip: service/gossip/service.go, `Upload` with the settlement service behind it. The sealed box
--   and the decoding of what is inside are parameters.
-- - Reconcile: service/reconciliation/service.go and repository/pgrepo/reconciliation.go. Nightly is
--   `NightlyLedgerReconcile`.
-- - Tests: concrete worlds, runs, and every theorem with a hypothesis applied in one.
--
-- How Go is modelled: int64 amounts are integers, and what is written to a balance is checked against
-- the range of BIGINT, an error of the database; strings that are ids are numbers, 0 the empty
-- string; times are nanoseconds from the zero time; a map that is ranged over is a list in an order
-- that is a parameter. A sum of int64 that Go computes wraps round. Every loop of the modelled code
-- runs over a list, or counts down, so that the functions are structurally recursive and no fuel is
-- needed. A database has one session: transactions do not
-- overlap, as the row locks and unique indexes would make them wait or fail.
--
-- Not modelled: the transport, generated code, commands and logging; the administration, registration
-- and authentication services; notifications and the loops round the message broker; the listings of
-- transfers; the client-log diff and batch receipts of reconciliation; the fraud scores of offline
-- payments, which are floating-point numbers.
pub mod Base
pub mod Domain
pub mod Store
pub mod Crypto
pub mod Settlement
pub mod Fraud
pub mod Wallet
pub mod Transfer
pub mod Reconcile
pub mod Gossip
mod Tests
