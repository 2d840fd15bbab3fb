-- ===== src/Events.antt =====
-- The organiser's operations on events (src/events): ownership, capacity, status, granted issuance,
-- pass windows and the finish schedule.
pub mod Ownership
pub mod Capacity
pub mod Status
pub mod Issuance
pub mod PassWindow
pub mod FinishSchedule
