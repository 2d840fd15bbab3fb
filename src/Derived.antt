-- ===== src/Derived.antt =====
-- The derived copy of the ledger: src/derived.
pub mod Pages
pub mod Reader
