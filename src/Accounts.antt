-- ===== src/Accounts.antt =====
-- Accounts and sessions: src/auth, src/operators and src/reviewers.
pub mod Rows
pub mod Email
pub mod Sessions
pub mod Organisers
pub mod Holders
pub mod Reviewers
pub mod Operators
pub mod Reports
pub mod Later
pub mod Kept
pub mod Steps
pub mod Revoked
pub mod Redeemed
pub mod Disabled
pub mod Recorded
pub mod Covered
pub mod Gates
