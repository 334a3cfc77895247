-- ===== src/P2Farm.antt =====
-- The P2 farm (p2-token-staking-fixed/src): one token is staked, and CHEDDAR is minted as the reward.
mod State
mod Rewards
mod Transfers
pub mod Methods
pub mod History
pub mod Recoveries
pub mod Tests
