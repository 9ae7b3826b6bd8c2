-- ===== src/Server.antt =====
-- internal/server: the route table, the ports of TCP routes, the listeners, the traffic counters and
-- the sessions of the login form.
pub mod Routes
pub mod Ports
pub mod Listeners
pub mod Metrics
pub mod Session
pub mod Samples
pub mod Login
pub mod LoginPage
pub mod Http
pub mod Admin
pub mod Endpoint
pub mod Proxy
pub mod Relay
pub mod Accepting
