-- ===== src/Client.antt =====
-- internal/client: what the client sends of its configuration.
pub mod Wire
pub mod Streams
pub mod Agent
pub mod Dashboard
pub mod LocalProxy
pub mod Sharing
