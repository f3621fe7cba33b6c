-- ===== src/Server.antt =====
-- internal/server: the limit on sessions.
pub mod Limits
