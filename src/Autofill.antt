-- ===== src/Autofill.antt =====
-- What the content script finds on a page and writes into it: src/autofill.
pub mod Detector
pub mod Filler
