-- ===== src/P1Dyn/Rewards.antt =====
-- Rounds, vaults and their rewards (p1-staking-pool-dyn/src/util.rs, vault.rs).
use cheddar.Prelude.{
  ℕ, ◌/◌, ◌&&◌, Bool, get_or, Result, ok, ◌>>=◌, ◌>>◌, expect, assert, ltb, leb, ◌==◌, ◌!=◌,
  if◌then◌else◌,
}
use cheddar.Prelude.Words.{mul_u64, mul_u256, add_u128, checked_sub, as_u128}
use cheddar.Near.{Env, AccountId, Balance}
use cheddar.Near.LookupMap.{get, insert, remove}
use cheddar.P3Lib.{e24}
use cheddar.P1Dyn.State.{Vault, Contract, round, sec_per_round, min_stake}

unfoldable pub current_round : Env → ℕ
current_round env = env.block_timestamp / round

unfoldable pub round_from_unix : ℕ → Result ℕ
round_from_unix unix_timestamp = mul_u64 unix_timestamp sec_per_round

unfoldable pub is_empty : Vault → Bool
is_empty v = v.rewards == 0 && v.staked == 0

-- `Vault::default()`
abbrev pub default_vault : Vault
default_vault = record { previous = 0; staked = 0; rewards = 0 }

unfoldable pub get_vault_or_default : AccountId → Contract → Vault
get_vault_or_default account_id c = get_or (get account_id c.vaults) default_vault

unfoldable pub get_vault : AccountId → Contract → Result Vault
get_vault account_id c = expect (get account_id c.vaults) "account not registered"

unfoldable pub save_vault : AccountId → Vault → Contract → Contract
unfolding is_empty
save_vault account v c =
    if is_empty v
    then record c { vaults = remove account c.vaults }
    else record c { vaults = insert account v c.vaults }

-- The rate for every staked NEAR and round.
unfoldable pub farmed_in : ℕ → Vault → Contract → Result Balance
farmed_in delta v c = do
  rated ← mul_u256 delta c.rate
  product ← mul_u256 rated (v.staked / e24)
  as_u128 product

-- The round from which on a vault has not been paid, in the current farming and no later than now.
unfoldable pub unpaid_from : ℕ → Vault → Contract → ℕ
unpaid_from now v c =
    let started = if ltb v.previous c.farming_start then c.farming_start else v.previous in
    if ltb now started then now else started

-- `ping` from the start of the farming on, at the round that counts.
unfoldable pub ping_at : ℕ → Vault → Contract → Result (Vault × Balance)
unfolding unpaid_from farmed_in
ping_at now v c = do
  let previous = unpaid_from now v c
  delta ← checked_sub now previous
  if ltb 0 delta
      then (do
        farmed ← farmed_in delta v c
        rewards ← add_u128 v.rewards farmed
        ok (record v { rewards = rewards; previous = now }, rewards))
      else ok (record v { previous = previous }, v.rewards)

unfoldable pub ping : Env → Vault → Contract → Result (Vault × Balance)
unfolding current_round is_empty ping_at
ping env v c = if is_empty v then ok (v, 0) else do
  assert (v.previous != 0) "Wrong state. Previously registered epoch can't be zero"
  let now = current_round env
  if ltb now c.farming_start
      then ok (v, 0)
      else ping_at (if leb c.farming_end now then c.farming_end else now) v c

-- `_stake`
unfoldable pub stake_more : Env → Balance → Vault → Contract → Result Vault
stake_more env amount v c = do
  (v', _) ← ping env v c
  staked ← add_u128 v'.staked amount
  ok (record v' { staked = staked })

-- `_unstake`
unfoldable pub unstake_part : Env → Balance → Vault → Contract → Result Vault
unstake_part env amount v c = do
  assert (leb amount v.staked) "E30: not enough staked tokens"
  (v', _) ← ping env v c
  staked ← checked_sub v'.staked amount
  assert (leb min_stake staked)
      "E02: can not unstake everything without closing the account. Call close() instead"
  ok (record v' { staked = staked })
