-- ===== src/P3Farm.antt =====
-- The P3 farm (p3-farm/src): several tokens are staked, and farm several tokens.
mod State
mod Rewards
mod Transfers
mod Staking
pub mod Setup
pub mod Methods
pub mod Units
pub mod History
pub mod Emission
pub mod Recoveries
pub mod Stakes
pub mod Deposits
pub mod Tests
pub use State.*
unfoldable pub use Rewards.*
unfoldable pub use Transfers.*
unfoldable pub use Staking.*
