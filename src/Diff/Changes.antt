-- ===== src/Diff/Changes.antt =====
-- The changes that the parts of the diff report, as lists: each part extends the diff by its list.
pub mod Fields
pub mod Entities
pub mod Whole
