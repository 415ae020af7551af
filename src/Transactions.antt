-- ===== src/Transactions.antt =====
-- modules/transaction/transaction.service.ts.
pub mod Response
pub mod Preload
pub mod Counts
pub mod Filters
pub mod Listing
pub mod Single
pub mod Offsets
mod Tests
