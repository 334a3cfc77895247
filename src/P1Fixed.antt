-- ===== src/P1Fixed.antt =====
-- The fixed P1 pool (p1-staking-pool-fixed/src): NEAR is staked for CHEDDAR.
mod State
mod Rewards
pub mod Methods
pub mod History
pub mod Tests
