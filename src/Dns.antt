-- ===== src/Dns.antt =====
-- src/dns: the name server.
pub mod Records
pub mod Authority
pub mod Handler
pub mod Server
