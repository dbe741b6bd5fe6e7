-- ===== src/Facts.antt =====
-- crates/core/src/facts/mod.rs: the inventory documents of a host.
pub mod Source
pub mod Upload
pub mod Import
pub mod Diff
mod Samples
