-- ===== src/P1Dyn/Methods.antt =====
-- The calls of the dynamic P1 pool (p1-staking-pool-dyn/src/lib.rs).
use cheddar.Prelude.{
  ℕ, ◌-◌, ◌/◌, max, Bool, true, List, [], ◌∷◌, none, some, length, get_elem?, Result, ok, panic,
  ◌>>=◌, ◌>>◌, assert, ltb, leb, ◌==◌, if◌then◌else◌,
}
use cheddar.Prelude.Words.{add_u128, checked_sub}
use cheddar.Near.{Env, AccountId, Balance, not_ready, failed, successful}
use cheddar.Near.LookupMap.{remove}
use cheddar.P1Dyn.State.{
  Vault, Contract, Promise, transfer, ft_mint, ft_mint_with_callbacks, min_stake, sec_per_round,
}
use cheddar.P1Dyn.Rewards.{
  current_round, round_from_unix, is_empty, get_vault_or_default, get_vault, save_vault, ping,
  stake_more, unstake_part,
}

unfoldable pub new : AccountId → AccountId → ℕ → ℕ → ℕ → Result Contract
new owner_id cheddar_id reward_rate farming_start farming_end = do
  start ← round_from_unix farming_start
  end ← round_from_unix farming_end
  ok (record {
    owner_id = owner_id;
    cheddar_id = cheddar_id;
    is_active = true;
    vaults = [];
    rate = reward_rate;
    total_stake = 0;
    farming_start = start;
    farming_end = end;
    total_rewards = 0;
  })

unfoldable pub assert_one_yocto : Env → Result (Unit {0})
assert_one_yocto env =
    assert (env.attached_deposit == 1) "Requires attached deposit of exactly 1 yoctoNEAR"

unfoldable pub assert_owner_calling : Env → Contract → Result (Unit {0})
assert_owner_calling env c =
    assert (env.predecessor_account_id == c.owner_id) "can only be called by the owner"

-- Staked NEAR, farmed CHEDDAR and the current second.
unfoldable pub status : Env → AccountId → Contract → Result (Balance × Balance × ℕ)
status env account_id c =
    let v = get_vault_or_default account_id c in
    ping env v c >>= λ (v', farmed). ok (v.staked, farmed, current_round env / sec_per_round)

-- The vault after the stake.
unfoldable pub staked_vault : Env → Balance → Vault → Contract → Result Vault
staked_vault env amount v c =
    if is_empty v
    then (do
      staked ← add_u128 v.staked amount
      ok (record v { staked = staked; previous = max (current_round env) c.farming_start }))
    else stake_more env amount v c

unfoldable pub stake : Env → Contract → Result (Contract × Balance)
unfolding staked_vault
stake env c = do
  assert c.is_active "Farming is not open"
  let amount = env.attached_deposit
  assert (leb min_stake amount) "E01: min stake amount is 0.01 NEAR"
  let aid = env.predecessor_account_id
  total_stake ← add_u128 c.total_stake amount
  v ← staked_vault env amount (get_vault_or_default aid c) (record c { total_stake = total_stake })
  ok (save_vault aid v (record c { total_stake = total_stake }), v.staked)

unfoldable pub mint_cheddar_promise : AccountId → Balance → Contract → Result Promise
mint_cheddar_promise a amount c = do
  assert (ltb 0 amount) "amount of Cheddar to mint must be positive"
  ok (ft_mint_with_callbacks c.cheddar_id a amount)

-- The promises of a closing: the NEAR, and CHEDDAR if there are rewards.
unfoldable pub closing_promises : AccountId → Vault → Contract → Result (List Promise)
unfolding mint_cheddar_promise
closing_promises aid v c =
    if v.rewards == 0
    then ok (transfer aid v.staked ∷ [])
    else (mint_cheddar_promise aid v.rewards c >>= λ p. ok (transfer aid v.staked ∷ p ∷ []))

unfoldable pub close : Env → Contract → Result (Contract × List Promise)
unfolding assert_one_yocto closing_promises
close env c = do
  assert_one_yocto env
  let aid = env.predecessor_account_id
  v ← get_vault aid c
  (v', _) ← ping env v c
  assert (leb v'.staked c.total_stake) "total_staked {} < to_transfer {}"
  total_stake ← checked_sub c.total_stake v'.staked
  assert (ltb 0 v'.staked) "assertion failed: to_transfer > 0"
  ps ← closing_promises aid v' c
  ok (record c { vaults = remove aid c.vaults; total_stake = total_stake }, ps)

-- What is left within the smallest stake closes the account, and otherwise the amount goes back.
unfoldable pub unstake : Env → Balance → Contract → Result (Contract × List Promise)
unfolding assert_one_yocto
unstake env amount c = do
  assert_one_yocto env
  assert (ltb 0 amount) "Invalid amount"
  let aid = env.predecessor_account_id
  let v = get_vault_or_default aid c
  assert (leb amount v.staked) "Invalid amount, you have not that much staked"
  if leb (v.staked - amount) min_stake then close env c else (do
    total_stake ← checked_sub c.total_stake amount
    v' ← unstake_part env amount v (record c { total_stake = total_stake })
    ok (save_vault aid v' (record c { total_stake = total_stake }), transfer aid amount ∷ []))

unfoldable pub withdraw_crop : Env → Contract → Result (Contract × List Promise)
unfolding mint_cheddar_promise
withdraw_crop env c = do
  let aid = env.predecessor_account_id
  v ← get_vault aid c
  (v', _) ← ping env v c
  assert (ltb 0 v'.rewards) "assertion failed: vault.rewards > 0"
  p ← mint_cheddar_promise aid v'.rewards c
  ok (save_vault aid (record v' { rewards = 0 }) c, p ∷ [])

unfoldable pub set_active : Env → Bool → Contract → Result Contract
unfolding assert_owner_calling
set_active env is_open c = assert_owner_calling env c >>= λ _. ok (record c { is_active = is_open })

unfoldable pub set_start_end : Env → ℕ → ℕ → Contract → Result Contract
unfolding assert_owner_calling
set_start_end env farming_start farming_end c = do
  assert_owner_calling env c
  start ← round_from_unix farming_start
  end ← round_from_unix farming_end
  ok (record c { farming_start = start; farming_end = end })

unfoldable pub farm_yocto : Env → Contract → Result (Contract × List Promise)
unfolding assert_owner_calling
farm_yocto env c = do
  assert_owner_calling env c
  total_rewards ← add_u128 c.total_rewards 1
  ok (
    record c { total_rewards = total_rewards },
    ft_mint c.cheddar_id env.predecessor_account_id 1 ∷ [],
  )

-- Rewards whose mint failed go back to the vault, which is pinged.
unfoldable pub recover_rewards : Env → AccountId → Balance → Contract → Result Contract
recover_rewards env user amount c = do
  let v = get_vault_or_default user c
  rewards ← add_u128 v.rewards amount
  (v', _) ← ping env (record v { rewards = rewards }) c
  ok (save_vault user v' c)

unfoldable pub mint_callback : Env → AccountId → Balance → Contract → Result Contract
unfolding recover_rewards
mint_callback env user amount c = do
  assert (length env.promise_results == 1) "E25: expected 1 promise result from withdraw"
  elim (get_elem? env.promise_results 0) [
    | none ↦ panic "promise result index out of bounds"
    | some result ↦ elim result [
      | not_ready ↦ panic "internal error: entered unreachable code"
      | successful _ ↦
          (add_u128 c.total_rewards amount >>= λ t. ok (record c { total_rewards = t }))
      | failed ↦ recover_rewards env user amount c
    ]
  ]

-- Whether the rewards were paid, for the interface; the state does not change.
unfoldable pub mint_callback_finally : AccountId → Balance → Contract → Result Balance
mint_callback_finally user amount c = do
  assert ((get_vault_or_default user c).rewards == 0) "Cheddar minting failed"
  ok amount
