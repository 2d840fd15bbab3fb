-- ===== src/Examples.antt =====
-- Concrete runs: the data that they share, and the theorems at that data.
mod Data
mod Allocating
mod Paying
mod Closing
mod Linking
mod Windows
mod Enrolling
mod Gating
mod Reading
mod Sponsoring
mod Scheduling
mod Proving
