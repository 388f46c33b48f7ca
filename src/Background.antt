-- ===== src/Background.antt =====
-- src/background: the service worker's own state.
pub mod SignIn
pub mod Messages
pub mod Router
pub mod Import
