-- ===== src/Sales.antt =====
-- Primary sales (src/sales): allocation accounting, holds, checkout sessions, paid checkout.
pub mod Allocation
pub mod OnSale
pub mod Seats
pub mod Audit
pub mod Holds
pub mod Lifetime
pub mod Checkout
pub mod CancellationRefunds
pub mod Payment
