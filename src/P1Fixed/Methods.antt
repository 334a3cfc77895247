-- ===== src/P1Fixed/Methods.antt =====
-- The calls of the fixed P1 pool (p1-staking-pool-fixed/src/lib.rs).
use cheddar.Prelude.{
  ℕ, ◌-◌, ◌/◌, ◌&&◌, max, Bool, true, List, [], ◌∷◌, Option, none, some, length, get_elem?, Result,
  ok, panic, ◌>>=◌, ◌>>◌, expect, assert, leb, ◌==◌, if◌then◌else◌,
}
use cheddar.Prelude.Words.{add_u128, checked_sub}
use cheddar.Near.{Env, AccountId, Balance, not_ready, failed, successful}
use cheddar.Near.LookupMap.{get, insert, remove}
use cheddar.P1Fixed.State.{
  Vault, Contract, Promise, transfer, ft_transfer, joined, min_stake, sec_per_round,
}
use cheddar.P1Fixed.Rewards.{
  current_round, round_from_unix, ping, get_vault, stake_more, unstake_part,
}

unfoldable pub new : AccountId → AccountId → ℕ → ℕ → ℕ → Result Contract
new owner_id cheddar_id emission_rate farming_start farming_end = do
  start ← round_from_unix farming_start
  end ← round_from_unix farming_end
  ok (record {
    owner_id = owner_id;
    cheddar_id = cheddar_id;
    is_active = true;
    vaults = [];
    emission_rate = emission_rate;
    total_stake = 0;
    stake_acc = 0;
    farming_start = start;
    farming_end = end;
  })

unfoldable pub assert_one_yocto : Env → Result (Unit {0})
assert_one_yocto env =
    assert (env.attached_deposit == 1) "Requires attached deposit of exactly 1 yoctoNEAR"

unfoldable pub set_active : Env → Bool → Contract → Result Contract
set_active env is_open c = do
  assert (env.predecessor_account_id == c.owner_id) "can only be called by the owner"
  ok (record c { is_active = is_open })

-- Staked NEAR, farmed CHEDDAR and the current second.
unfoldable pub status : Env → AccountId → Contract → Result (Balance × Balance × ℕ)
status env account_id c = elim (get account_id c.vaults) [
  | none ↦ ok (0, 0, 0)
  | some v ↦
      (ping env v c >>= λ (v', farmed). ok (v.staked, farmed, current_round env / sec_per_round))
]

-- The vault after the stake, and the whole stake.
unfoldable pub staked_vault : Env → Balance → Option Vault → Contract → Result Vault
staked_vault env amount none c =
    ok (record { previous = max (current_round env) c.farming_start; staked = amount; rewards = 0 })
staked_vault env amount (some v) c = stake_more env amount v c

unfoldable pub stake : Env → Contract → Result (Contract × Balance)
unfolding staked_vault
stake env c = do
  assert c.is_active "Farming is not open"
  let amount = env.attached_deposit
  assert (leb min_stake amount) "E01: min stake amount is 0.01 NEAR"
  let aid = env.predecessor_account_id
  v ← staked_vault env amount (get aid c.vaults) c
  ok (record c { vaults = insert aid v c.vaults }, v.staked)

unfoldable pub withdraw_cheddar : AccountId → Balance → Contract → Promise
withdraw_cheddar a amount c = ft_transfer c.cheddar_id a amount

unfoldable pub close : Env → Contract → Result (Contract × Balance × List Promise)
unfolding assert_one_yocto withdraw_cheddar
close env c = do
  assert_one_yocto env
  let aid = env.predecessor_account_id
  v ← get_vault env c
  (v', _) ← ping env v c
  assert (leb v'.staked c.total_stake) "total_staked {} < vault.staked {}"
  total_stake ← checked_sub c.total_stake v'.staked
  ok (
    record c { vaults = remove aid c.vaults; total_stake = total_stake },
    v'.staked,
    joined (transfer aid v'.staked) (withdraw_cheddar aid v'.rewards c) ∷ [],
  )

unfoldable pub unstake : Env → Balance → Contract → Result (Contract × Balance × List Promise)
unfolding assert_one_yocto
unstake env amount c = do
  assert_one_yocto env
  let aid = env.predecessor_account_id
  v ← get_vault env c
  if leb min_stake v.staked && leb (v.staked - min_stake) amount then close env c else (do
    v' ← unstake_part env amount v c
    total_stake ← checked_sub c.total_stake amount
    ok (
      record c { total_stake = total_stake; vaults = insert aid v' c.vaults },
      v'.staked,
      transfer aid amount ∷ [],
    ))

unfoldable pub withdraw_crop : Env → Contract → Result (Contract × Balance × List Promise)
unfolding withdraw_cheddar
withdraw_crop env c = do
  let aid = env.predecessor_account_id
  v ← get_vault env c
  (v', _) ← ping env v c
  ok (
    record c { vaults = insert aid (record v' { rewards = 0 }) c.vaults },
    v'.rewards,
    withdraw_cheddar aid v'.rewards c ∷ [],
  )

-- Rewards that did not arrive go back to the vault.
unfoldable pub recover_rewards : AccountId → Balance → Contract → Result Contract
recover_rewards sender_id amount c = do
  v ← expect (get sender_id c.vaults) "E10: account not found"
  rewards ← add_u128 v.rewards amount
  ok (record c { vaults = insert sender_id (record v { rewards = rewards }) c.vaults })

unfoldable pub withdraw_callback : Env → AccountId → Balance → Contract → Result Contract
unfolding recover_rewards
withdraw_callback env sender_id amount c = do
  assert (length env.promise_results == 1) "E25: expected 1 promise result from withdraw"
  elim (get_elem? env.promise_results 0) [
    | none ↦ panic "promise result index out of bounds"
    | some result ↦ elim result [
      | not_ready ↦ panic "internal error: entered unreachable code"
      | successful _ ↦ ok c
      | failed ↦ recover_rewards sender_id amount c
    ]
  ]
