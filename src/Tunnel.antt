-- ===== src/Tunnel.antt =====
-- internal/tunnel: the wire format, the control frames, the messages and the handshake.
pub mod Conn
pub mod Wire
pub mod Frame
pub mod Messages
pub mod Handshake
pub mod Session
mod Tests
