-- ===== src/Near.antt =====
-- What a contract call sees of the chain (near_sdk::env), and the storage map of the contracts.
pub mod LookupMap
use cheddar.Prelude.{ℕ, List}

-- Account identifiers are only compared for equality, so they are numbered.
abbrev pub AccountId : Type 0
AccountId = ℕ

-- Amounts of a token or of NEAR, a `u128`.
abbrev pub Balance : Type 0
Balance = ℕ

-- The answer of a call that the contract waited for, with the bytes that it returned.
pub data PromiseResult : Type 0 where
  not_ready failed : PromiseResult
  successful : List ℕ → PromiseResult

pub record Env : Type 0 where
  pub predecessor_account_id : AccountId
  pub signer_account_id : AccountId
  pub attached_deposit : Balance
  -- nanoseconds
  pub block_timestamp : ℕ
  pub storage_byte_cost : Balance
  pub prepaid_gas : ℕ
  pub promise_results : List PromiseResult
