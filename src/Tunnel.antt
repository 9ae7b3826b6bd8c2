-- ===== src/Tunnel.antt =====
-- internal/tunnel: the frames of the tunnel protocol, the stream multiplexer and the route auth check.
pub mod Frame
pub mod Mux
pub mod Conn
pub mod Auth
pub mod Pump
