-- ===== src/Bridge.antt =====
-- internal/bridge: the server on the target.
pub mod Ports
pub mod Clients
pub mod Mounts
pub mod Exports
pub mod Connections
pub mod Endpoint
