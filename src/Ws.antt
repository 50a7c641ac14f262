-- ===== src/Ws.antt =====
-- src/server/ws/: the WebSocket frames, the opening handshake and the connection.
pub mod Frame
pub mod Handshake
pub mod Connection
