-- ===== src/Lib.antt =====
-- Verification of the Cheddar contracts: the CHEDDAR token with vesting, and the farms that stake tokens
-- and pay them with harvests.
--
-- The program is a family of NEAR contracts. The token (cheddar/src) keeps balances, minters and vesting
-- schedules. A farm keeps a vault for every registered account, an accumulator of what one staked unit
-- has earned, and totals over the vaults; a call first brings the accumulator to the current round and
-- the vault to the accumulator (a ping), and then changes the vault. Tokens leave a farm through
-- promises, and a callback restores the vault when a token contract refuses.
--
-- Parts and files:
--   Prelude           Boolean tests, lists, results of calls that may panic, machine words with overflow
--                     checks (Cargo.toml sets overflow-checks)
--   Near              what a call reads of the chain (near_sdk::env): predecessor, deposit, time, results of
--                     promises; Near/LookupMap is the map of accounts
--   Cheddar           cheddar/src: State is struct Contract; Vesting is vesting.rs and util.rs; Internal is
--                     internal.rs; Storage is storage.rs; Methods is lib.rs and the resolution of transfer
--                     calls. Supply, History, Transfers, Locks, Refunds, Minters, Deposits and Schedules
--                     hold the theorems. Ledger is the token as an abstract ledger, with the entries that
--                     each caller may make, Ledger/Effects what the operations do to it, Ledger/Calls
--                     what the calls enter, Ledger/Refines the refinement; a resolution of a transfer call
--                     is #[private], and so is made by the contract itself
--   P3Lib             p3-lib/src/lib.rs: constants, safe_mul, round_number and the other helpers
--   P3Farm            p3-farm/src: State is struct Vault and struct Contract; Rewards is the accumulator and the
--                     stake units of vault.rs; Transfers is the sending of tokens and the callbacks of
--                     lib.rs; Staking is _stake, _unstake, close and the withdrawals; Setup is new, the
--                     deposits and the owner's calls; Methods is the receivers, the storage and the views.
--                     Units, History, Emission, Stakes, Deposits and Recoveries hold the theorems
--   P2Farm            p2-token-staking-fixed/src: State, Rewards (vault.rs), Transfers (return_tokens,
--                     mint_cheddar and the callbacks), Methods (the calls). History and Recoveries hold
--                     the theorems
--   P4Farm            p4-farm-nft/src: State is struct Vault and struct Contract; Identifiers is helpers.rs;
--                     Rewards is the accumulator and the stake units of vault.rs; Transfers is the
--                     sending of NFTs and tokens and the callbacks of lib.rs; Staking is _nft_stake,
--                     _boost_stake, _nft_unstake, close and the withdrawals; Setup is new, the deposits
--                     and the owner's calls; Methods is token_standards.rs, storage_management.rs and
--                     the views. Counts, Accounts, Payouts, History, Stakes, Boosts, CheddarStakes,
--                     Emission and Reports hold the theorems
--   P1Fixed           p1-staking-pool-fixed/src: State, Rewards (util.rs, vault.rs), Methods (lib.rs); History
--                     holds the theorem
--   P1Dyn             p1-staking-pool-dyn/src: the same files; History and Recoveries hold the theorems
--
-- How code becomes definitions: a method is a function from the environment, its arguments and the
-- contract to a Result of the new contract, what it returns, and the promises it makes, in their order.
-- A panic is `panic` with the format string of the message, and the state of the call is gone with it, as
-- the chain rolls it back. A callback is a call of its own, whose environment carries the answer. The
-- receiver of a promise is not modelled: theorems about callbacks hold for every answer. A loop over indices
-- is recursion on the number of rounds left; there is no fuel.
--
-- Parameters: the check of the metadata and the decoding of a JSON amount, which are library code, are
-- arguments of the token's definitions that use them. AccountId::from_str of near_sdk, by which the P4 farm
-- reads the account in a text, is an argument of its definitions; one theorem asks that a text of fewer
-- than two characters is no account, as the rules for NEAR identifiers say.
--
-- Numbers are natural numbers. u64, u128 and U256 arithmetic panics where the result does not fit
-- (Prelude/Words), and so do the usize sums of the P4 farm, at 32 bits. Accounts are numbers, with 0 for
-- "near"; the identifiers of NFTs are texts.
--
-- Not modelled: logs and gas, the checks of the near_sdk macros (#[payable], #[private], #[init]), the
-- binary layout of the state, upgrade and migration of the token, views that only copy fields, the build and
-- deployment scripts.
pub mod Prelude
pub mod Near
pub mod Cheddar
pub mod P1Dyn
pub mod P1Fixed
pub mod P2Farm
pub mod P3Farm
pub mod P3Lib
pub mod P4Farm
