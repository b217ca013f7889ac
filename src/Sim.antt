-- ===== src/Sim.antt =====
-- The tables of the sandbox simulator, internal/runtime/sandbox/sim/table.go: row maps that marks and
-- forks share, and that a write copies first.
pub mod Table
pub mod World
pub mod Kept
pub mod Moved
pub mod Isolation
pub mod Rows
pub mod Pool
pub mod Captures
pub mod Marks
pub mod Tests
