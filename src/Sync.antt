-- ===== src/Sync.antt =====
-- src/sync15: reconciliation, the record types, the storage client and the sync engine.
pub mod Reconcile
pub mod Passwords
pub mod Addresses
pub mod Storage
pub mod Meta
pub mod Engine
pub mod Session
pub mod TokenServer
pub mod AuthCheck
