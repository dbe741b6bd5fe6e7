-- ===== src/Limits.antt =====
-- The rate limits: sign-in mails (crates/server/src/auth/rate_limit.rs), agent requests and
-- enrollment (crates/server/src/agent/limits.rs).
pub mod Governor
pub mod Email
pub mod Auth
pub mod Agent
pub mod Enrollment
pub mod Counting
mod Samples
