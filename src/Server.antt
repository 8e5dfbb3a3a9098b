-- ===== src/Server.antt =====
-- internal/server: what a chat request does with the pool, and the answer for each error.
pub mod Error
pub mod Chat
pub mod Reply
