-- ===== src/Gateway.antt =====
-- src/gateway: the controller of the eight ports.
pub mod Config
pub mod Controller
pub mod Persistent
pub mod Coordinator
