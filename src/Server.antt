-- ===== src/Server.antt =====
-- The HTTP server (internal/server).
pub mod Auth
