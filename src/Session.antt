-- ===== src/Session.antt =====
-- The session managers of internal/session.
pub mod Snapshot
pub mod Manager
pub mod Storm
pub mod Answer
pub mod Unavailable
pub mod Refresh
pub mod Poll
pub mod Ensure
pub mod Admission
mod Tests
