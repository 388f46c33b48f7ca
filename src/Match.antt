-- ===== src/Match.antt =====
-- src/match: whether a stored credential belongs to a page.
pub mod EquivalentDomains
pub mod Psl
pub mod Uri
