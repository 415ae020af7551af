-- ===== src/Staking.antt =====
-- modules/staking/staking.service.ts: delegations, undelegations, redelegations and withdrawals as
-- the message table has them, and the tables of one row.
pub mod Listing
pub mod OneRow
mod Tests
