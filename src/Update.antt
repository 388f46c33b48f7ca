-- ===== src/Update.antt =====
-- src/update: FireSync's own update engine.
pub mod Version
pub mod Checker
