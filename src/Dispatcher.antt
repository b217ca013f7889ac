-- ===== src/Dispatcher.antt =====
-- The dispatcher, internal/server/jobsdispatcher: it claims rows of the queue for sessions.
pub mod Authz
pub mod Drain
pub mod Handlers
pub mod Outcomes
pub mod Sent
mod Tests
