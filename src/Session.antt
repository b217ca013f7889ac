-- ===== src/Session.antt =====
-- The session of a connected worker, internal/server/jobsdispatcher/session.go.
pub mod State
pub mod Expiry
pub mod Maps
pub mod Calls
pub mod Invariant
pub mod Deadlines
pub mod Counter
pub mod Overlap
pub mod Alone
pub mod Slots
mod Tests
