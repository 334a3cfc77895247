-- ===== src/P1Fixed/Rewards.antt =====
-- Rounds, and the rewards of a vault (p1-staking-pool-fixed/src/util.rs, vault.rs).
use cheddar.Prelude.{ℕ, ◌/◌, Result, ok, ◌>>=◌, ◌>>◌, expect, assert, ltb, leb, ◌!=◌, if◌then◌else◌}
use cheddar.Prelude.Words.{mul_u64, mul_u256, add_u128, checked_div, checked_sub, as_u128}
use cheddar.Near.{Env, Balance}
use cheddar.Near.LookupMap.{get}
use cheddar.P1Fixed.State.{Vault, Contract, round, sec_per_round, min_stake}

unfoldable pub current_round : Env → ℕ
current_round env = env.block_timestamp / round

unfoldable pub round_from_unix : ℕ → Result ℕ
round_from_unix unix_timestamp = mul_u64 unix_timestamp sec_per_round

-- The part of the emission in those rounds that the stake is of the total.
unfoldable pub farmed_in : ℕ → Vault → Contract → Result Balance
farmed_in delta v c = do
  emitted ← mul_u256 delta c.emission_rate
  product ← mul_u256 emitted v.staked
  quotient ← checked_div product c.total_stake
  as_u128 quotient

-- `ping` from the start of the farming on, at the round that counts.
unfoldable pub ping_at : ℕ → Vault → Contract → Result (Vault × Balance)
unfolding farmed_in
ping_at now v c = do
  delta ← checked_sub now v.previous
  if ltb 0 delta
      then (do
        farmed ← farmed_in delta v c
        rewards ← add_u128 v.rewards farmed
        ok (record v { rewards = rewards; previous = now }, rewards))
      else ok (v, v.rewards)

unfoldable pub ping : Env → Vault → Contract → Result (Vault × Balance)
unfolding current_round ping_at
ping env v c = do
  assert (v.previous != 0) "Wrong state. Previously registered epoch can't be zero"
  let now = current_round env
  if ltb now c.farming_start
      then ok (v, 0)
      else ping_at (if leb c.farming_end now then c.farming_end else now) v c

unfoldable pub get_vault : Env → Contract → Result Vault
get_vault env c = expect (get env.predecessor_account_id c.vaults) "E10: account not found"

-- `_stake`
unfoldable pub stake_more : Env → Balance → Vault → Contract → Result Vault
unfolding ping
stake_more env amount v c = do
  (v', _) ← ping env v c
  staked ← add_u128 v'.staked amount
  ok (record v' { staked = staked })

-- `_unstake`
unfoldable pub unstake_part : Env → Balance → Vault → Contract → Result Vault
unfolding ping
unstake_part env amount v c = do
  assert (leb amount v.staked) "E30: not enough staked tokens"
  (v', _) ← ping env v c
  staked ← checked_sub v'.staked amount
  assert (leb min_stake staked)
      "E02: can not unstake everything without closing the account. Call close() instead"
  ok (record v' { staked = staked })
