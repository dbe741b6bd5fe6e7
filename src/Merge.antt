-- ===== src/Merge.antt =====
-- JSON Merge Patch and canonical text, crates/core/src/merge.rs.
pub mod Patch
pub mod Rfc
pub mod Canonical
pub mod KeyOrder
mod Samples
