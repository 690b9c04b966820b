-- ===== src/Transfer.antt =====
-- Online transfers: backend/internal/service/transfer and the scoring of transfers in
-- backend/internal/service/fraud/transfer_scorer.go.
pub mod Types
pub mod Limits
pub mod Scoring
pub mod Accept
pub mod Process
pub mod Dispatch
pub mod Calls
pub mod Once
pub mod Conserved
pub mod Applied
pub mod Outcome
pub mod Written
pub mod Accepted
pub mod Again
pub mod Day
pub mod Backoff
pub mod Progress
pub mod Settled
