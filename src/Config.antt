-- ===== src/Config.antt =====
-- src/config: the configuration file.
pub mod Value
pub mod Listener
pub mod Records
pub mod Resolver
pub mod File
