-- ===== src/Diff.antt =====
-- The schema diff, internal/codegen/diff.go.
pub mod Change
pub mod Types
pub mod Equal
pub mod Field
pub mod Entity
pub mod Compute
mod Classes
mod Names
mod Reported
mod Removal
mod Empty
mod Merged
mod Order
mod Storage
mod Tests
mod Extend
mod Changes
