-- ===== src/Upstream.antt =====
-- internal/upstream: the refusals of the upstream and how an answer becomes one.
pub mod Errors
pub mod Failure
pub mod Delay
pub mod Text
pub mod Fields
pub mod RateLimit
pub mod Classify
pub mod Samples
mod Tests
