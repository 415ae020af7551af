-- ===== src/Blocks.antt =====
-- modules/block/block.service.ts.
pub mod Fees
pub mod Listing
pub mod Messages
pub mod Single
mod Tests
