-- ===== src/Bridge.antt =====
-- src/bridge: the client of the optional native host.
pub mod Client
