-- ===== src/Lsp.antt =====
-- The client of gopls (internal/lsp/lsp.go).
pub mod Columns
pub mod Conn
pub mod Frames
pub mod Client
