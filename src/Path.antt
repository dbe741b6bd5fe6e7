-- ===== src/Path.antt =====
-- Fact paths, crates/core/src/selector/path.rs: the parser, the spelling of paths, and the values
-- that a path reaches in a document.
pub mod Parse
pub mod Spell
pub mod Resolve
pub mod Grammar
pub mod Sound
pub mod Fuel
pub mod Complete
pub mod Language
pub mod Extend
pub mod Children
mod Samples
