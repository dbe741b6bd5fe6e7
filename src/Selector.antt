-- ===== src/Selector.antt =====
-- Group selectors, crates/core/src/selector: the grammar, its validation, and its evaluation against
-- the tags and the facts of a host.
pub mod Tags
pub mod Expr
pub mod Validate
pub mod Eval
pub mod HostControl
pub mod Sources
pub mod Limits
pub mod Accepts
mod Samples
