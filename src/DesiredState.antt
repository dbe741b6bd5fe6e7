-- ===== src/DesiredState.antt =====
-- The desired state of a host, crates/server/src/agent/desired_state.rs.
pub mod Bundle
pub mod Message
pub mod Compute
pub mod Cache
mod Samples
