-- ===== src/Queue.antt =====
-- The job queue, clients/go/jobs/sql.go.
pub mod Table
pub mod Claim
pub mod Settle
pub mod Rows
pub mod Ids
pub mod Steps
pub mod Leases
pub mod Outcomes
pub mod Sweep
mod Tests
