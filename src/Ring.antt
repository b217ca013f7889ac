-- ===== src/Ring.antt =====
-- The log ring of internal/obs/logring.go: writers claim a number and then publish; readers poll.
pub mod State
pub mod Slots
pub mod Turns
pub mod Window
pub mod Size
pub mod Writers
pub mod Tests
