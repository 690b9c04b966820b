-- ===== src/Settlement.antt =====
-- backend/internal/service/settlement: offline payment claims (Phase 4a) and their finalization
-- (Phase 4b).
pub mod Types
pub mod Claim
pub mod Accept
pub mod Submit
pub mod Finalize
pub mod Enqueue
pub mod Checked
pub mod Enqueued
pub mod Submitted
pub mod Finalized
pub mod Accepted
pub mod Recorded
pub mod Waterfall
pub mod Shared
pub mod Checks
pub mod Sound
pub mod Process
pub mod Processed
pub mod Calls
pub mod Totals
pub mod Resubmitted
pub mod Ends
pub mod Ended
pub mod Cleared
