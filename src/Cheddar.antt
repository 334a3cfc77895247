-- ===== src/Cheddar.antt =====
-- The Cheddar token (cheddar/src): a NEP-141 token with several minters, vesting and NEP-145 storage.
mod State
mod Vesting
pub mod Internal
pub mod Storage
pub mod Methods
pub mod Supply
pub mod History
pub mod Ledger
mod Tests
pub mod Schedules
pub mod Deposits
pub mod Minters
pub mod Refunds
pub mod Transfers
pub mod Locks
pub use State.*
unfoldable pub use Vesting.*
