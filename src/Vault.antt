-- ===== src/Vault.antt =====
-- The vault: src/vault.
pub mod Contents
pub mod Crypto
pub mod Store
pub mod State
pub mod Logins
