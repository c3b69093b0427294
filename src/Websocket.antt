-- ===== src/Websocket.antt =====
-- The live connections to browsers: backend/internal/websocket.
pub mod Hub
pub mod Manager
