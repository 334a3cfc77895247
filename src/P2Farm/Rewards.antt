-- ===== src/P2Farm/Rewards.antt =====
-- The reward accumulator of the P2 farm (p2-token-staking-fixed/src/vault.rs).
use cheddar.Prelude.{
  ℕ, ◌+◌, ◌-◌, ◌/◌, ◌%◌, ◌&&◌, ◌||◌, Result, ok, ◌>>=◌, expect, assert, ltb, leb, ◌==◌, ◌!=◌,
  if◌then◌else◌,
}
use cheddar.Prelude.Words.{mul_u128, add_u128, checked_div, checked_sub}
use cheddar.Near.{Env, AccountId, Balance}
use cheddar.Near.LookupMap.{get, insert}
use cheddar.P3Lib.{second, round, acc_overflow}
use cheddar.P2Farm.State.{Vault, Contract}

-- `Vault::ping`, with the rewards that it returns.
unfoldable pub ping : Vault → ℕ → ℕ → Result (Vault × Balance)
ping v reward_acc round =
    if round == 0 then ok (v, 0) else if v.reward_acc == reward_acc then ok (v, v.farmed) else do
      product ←
          (if ltb reward_acc v.reward_acc
            then ok 0
            else mul_u128 v.staked (reward_acc - v.reward_acc))
      farmed ← add_u128 v.farmed (product / acc_overflow)
      ok (record v { farmed = farmed; reward_acc = reward_acc }, farmed)

unfoldable pub get_vault : Contract → AccountId → Result Vault
get_vault c account_id =
    expect (get account_id c.vaults) "E10: account not found. Register the account."

unfoldable pub compute_reward_acc : ℕ → Contract → Result ℕ
compute_reward_acc round c =
    if c.reward_acc_round == round || c.total_stake == 0 then ok c.reward_acc else do
      rounds ← checked_sub round c.reward_acc_round
      emitted ← mul_u128 rounds c.rate
      scaled ← mul_u128 emitted acc_overflow
      each ← checked_div scaled c.total_stake
      add_u128 c.reward_acc each

unfoldable pub update_reward_acc : ℕ → Contract → Result Contract
update_reward_acc round c = do
  new_s ← compute_reward_acc round c
  if c.total_stake == 0 || new_s != c.reward_acc
      then ok (record c { reward_acc = new_s; reward_acc_round = round })
      else ok c

unfoldable pub current_round : Env → Contract → Result ℕ
current_round env c =
    let seconds = env.block_timestamp / second in
    if ltb seconds c.farming_start then ok 0 else do
      let now = if leb c.farming_end seconds then c.farming_end else seconds
      let adjust = if leb c.farming_end seconds && (now % round != 0) then 1 else 0
      passed ← checked_sub now c.farming_start
      ok (passed / round + adjust)

unfoldable pub ping_all : Env → Vault → Contract → Result (Vault × Balance × Contract)
ping_all env v c = do
  r ← current_round env c
  c' ← update_reward_acc r c
  (v', farmed) ← ping v c'.reward_acc r
  ok (v', farmed, c')

unfoldable pub put_vault : AccountId → Vault → Contract → Contract
put_vault a v c = record c { vaults = insert a v c.vaults }

unfoldable pub assert_is_active : Contract → Result (Unit {0})
assert_is_active c = assert c.is_active "contract is not active"

unfoldable pub assert_one_yocto : Env → Result (Unit {0})
assert_one_yocto env =
    assert (env.attached_deposit == 1) "Requires attached deposit of exactly 1 yoctoNEAR"

unfoldable pub assert_owner : Env → Contract → Result (Unit {0})
assert_owner env c =
    assert (env.predecessor_account_id == c.owner_id) "can only be called by the owner"
