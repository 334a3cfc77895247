-- ===== src/P2Farm/State.antt =====
-- The state of the P2 farm (p2-token-staking-fixed/src/lib.rs, vault.rs) and what its calls ask of the
-- chain.
use cheddar.Prelude.{ℕ, Bool, ◌*◌}
use cheddar.Near.{AccountId, Balance}
use cheddar.Near.LookupMap.{LookupMap}
use cheddar.P3Lib.{milli_near}

abbrev pub storage_cost : Balance
storage_cost = milli_near * 50

pub record Vault : Type 0 where
  pub reward_acc : Balance
  pub staked : Balance
  pub farmed : Balance

pub record Contract : Type 0 where
  pub owner_id : AccountId
  pub cheddar : AccountId
  pub staking_token : AccountId
  pub is_active : Bool
  pub vaults : LookupMap Vault
  pub rate : ℕ
  pub farming_start : ℕ
  pub farming_end : ℕ
  pub total_harvested : ℕ
  pub reward_acc : ℕ
  pub reward_acc_round : ℕ
  pub total_stake : ℕ
  pub accounts_registered : ℕ
  pub fee_rate : ℕ
  pub fee_collected : ℕ
  pub treasury : AccountId

-- The contract's own calls that follow on a promise.
pub data Callback : Type 0 where
  return_tokens_callback : AccountId → Balance → Callback
  mint_callback : AccountId → Balance → Callback
  close_account : AccountId → Callback

pub data Promise : Type 0 where
  transfer : AccountId → Balance → Promise
  ft_transfer : (token receiver : AccountId) → Balance → Promise
  ft_mint : (token receiver : AccountId) → Balance → Promise
  -- `p.then(callback)` and `p.and(q)`
  followed : Promise → Callback → Promise
  joined : Promise → Promise → Promise
