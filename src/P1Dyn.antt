-- ===== src/P1Dyn.antt =====
-- The dynamic P1 pool (p1-staking-pool-dyn/src): NEAR is staked for CHEDDAR at a rate for each staked NEAR.
mod State
mod Rewards
pub mod Methods
pub mod History
pub mod Recoveries
pub mod Tests
