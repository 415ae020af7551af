-- ===== src/Addresses.antt =====
-- modules/address/address.service.ts: the transactions of one address, with the direction and the
-- amounts that they have for it.
pub mod Types
pub mod Messages
pub mod Summary
pub mod Filters
pub mod Listing
pub mod Response
mod Tests
