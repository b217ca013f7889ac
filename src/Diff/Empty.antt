-- ===== src/Diff/Empty.antt =====
-- When two schemas have no difference.
mod Fields
mod Maps
mod Entities
mod Whole
pub use Fields.{FieldUnchanged, PairOf}
pub use Entities.{EntityUnchanged}
pub use Whole.*
