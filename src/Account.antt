-- ===== src/Account.antt =====
-- Signing in to a Mozilla account: src/fxa.
pub mod Connect
