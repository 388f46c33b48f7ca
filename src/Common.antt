-- ===== src/Common.antt =====
-- src/common: the helpers that every part shares.
pub mod Bytes
