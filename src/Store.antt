-- ===== src/Store.antt =====
-- The Kippu store as the business layer sees it: the rows of the tables it keeps, what the
-- ledger answers, the errors that an operation throws, and transactions.
mod Errors
mod External
mod Rows
mod Monad
mod Steps
mod Keeping
pub use Errors.*
pub use External.*
pub use Rows.*
pub use Monad.*
pub use Steps.*
unfoldable pub use Keeping.*
