-- ===== src/P1Fixed/State.antt =====
-- The state of the fixed P1 pool (p1-staking-pool-fixed/src/lib.rs, vault.rs) and what its calls ask of
-- the chain.
use cheddar.Prelude.{ℕ, Bool, ◌*◌, ◌/◌}
use cheddar.Near.{AccountId, Balance}
use cheddar.Near.LookupMap.{LookupMap}
use cheddar.P3Lib.{milli_near}

abbrev pub nanoseconds : ℕ
nanoseconds = 1_000_000_000

-- round duration in nanoseconds
abbrev pub round : ℕ
round = nanoseconds

abbrev pub sec_per_round : ℕ
sec_per_round = round / nanoseconds

abbrev pub min_stake : Balance
min_stake = milli_near * 10

pub record Vault : Type 0 where
  pub previous : ℕ
  pub staked : Balance
  pub rewards : Balance

pub record Contract : Type 0 where
  pub owner_id : AccountId
  pub cheddar_id : AccountId
  pub is_active : Bool
  pub vaults : LookupMap Vault
  pub emission_rate : ℕ
  pub total_stake : ℕ
  pub stake_acc : ℕ
  pub farming_start : ℕ
  pub farming_end : ℕ

pub data Promise : Type 0 where
  transfer : AccountId → Balance → Promise
  -- CHEDDAR sent to an account, with `withdraw_callback` after it
  ft_transfer : (token receiver : AccountId) → Balance → Promise
  -- `p.and(q)`
  joined : Promise → Promise → Promise
