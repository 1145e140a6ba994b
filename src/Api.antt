-- ===== src/Api.antt =====
-- src/api: the HTTP server.
pub mod Metrics
pub mod Proxy
pub mod Tls
pub mod Http
pub mod Routes
pub mod Endpoint
pub mod Server
pub mod Listeners
pub mod Connection
