-- ===== src/P4Farm.antt =====
-- The P4 farm (p4-farm-nft/src): NFTs of several contracts are staked, and farm several tokens.
mod State
mod Identifiers
mod Rewards
mod Transfers
mod Staking
pub mod Setup
pub mod Methods
pub mod Counts
pub mod Accounts
pub mod History
pub mod Boosts
pub mod Emission
pub mod Reports
pub mod Stakes
pub mod Payouts
pub mod CheddarStakes
pub mod Tests
pub use State.*
unfoldable pub use Identifiers.*
unfoldable pub use Rewards.*
unfoldable pub use Transfers.*
unfoldable pub use Staking.*
