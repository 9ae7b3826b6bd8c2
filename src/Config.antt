-- ===== src/Config.antt =====
-- internal/config/config.go
pub mod Auth
pub mod Routes
pub mod Slices
pub mod Server
pub mod Files
