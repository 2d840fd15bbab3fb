-- ===== src/Sponsor.antt =====
-- The sponsor relay: src/sponsor.
pub mod Entitlements
