-- ===== src/P2Farm/Methods.antt =====
-- The calls of the P2 farm (p2-token-staking-fixed/src/lib.rs, vault.rs).
use cheddar.Prelude.{
  ℕ, ◌-◌, ◌&&◌, Bool, true, false, List, [], ◌∷◌, Option, none, some, get_or, Result, ok, ◌>>=◌,
  ◌>>◌, assert, ltb, leb, ◌==◌, if◌then◌else◌,
}
use cheddar.Prelude.Words.{mul_u64, add_u64, add_u128, checked_sub}
use cheddar.Near.{Env, AccountId, Balance}
use cheddar.Near.LookupMap.{get, remove, contains_key}
use cheddar.P3Lib.{second, round}
use cheddar.P2Farm.State.{Vault, Contract, Promise, transfer, ft_transfer, storage_cost}
use cheddar.P2Farm.Rewards.{
  ping, get_vault, ping_all, current_round, compute_reward_acc, put_vault, assert_is_active,
  assert_one_yocto, assert_owner,
}
use cheddar.P2Farm.Transfers.{return_tokens, mint_cheddar}

unfoldable pub new : AccountId → AccountId → AccountId → ℕ → ℕ → ℕ → ℕ → AccountId → Result Contract
new owner_id cheddar staked_token farming_start farming_end reward_rate fee_rate treasury = do
  assert (ltb farming_start farming_end) "End must be after start"
  ok (record {
    owner_id = owner_id;
    cheddar = cheddar;
    staking_token = staked_token;
    is_active = true;
    vaults = [];
    rate = reward_rate;
    farming_start = farming_start;
    farming_end = farming_end;
    total_harvested = 0;
    reward_acc = 0;
    reward_acc_round = 0;
    total_stake = 0;
    accounts_registered = 0;
    fee_rate = fee_rate;
    fee_collected = 0;
    treasury = treasury;
  })

-- The second in which the current round started, as `status` reports it.
unfoldable pub round_start : ℕ → Contract → Result ℕ
round_start r c = do
  passed ← mul_u64 (if ltb 1 r then r - 1 else 0) round
  add_u64 c.farming_start passed

unfoldable pub status : Env → AccountId → Contract → Result (Balance × Balance × ℕ)
unfolding round_start
status env account_id c = elim (get account_id c.vaults) [
  | none ↦ ok (0, 0, 0)
  | some v ↦ do
    r ← current_round env c
    acc ← compute_reward_acc r c
    (v', farmed) ← ping v acc r
    start ← round_start r c
    ok (v'.staked, farmed, start)
]

unfoldable pub close : Env → Contract → Result (Contract × List Promise)
unfolding assert_is_active assert_one_yocto put_vault
close env c = do
  assert_is_active c
  assert_one_yocto env
  let a = env.predecessor_account_id
  v ← get_vault c a
  (v', _, c') ← ping_all env v c
  if v'.staked == 0 && v'.farmed == 0
      then ok (record c' { vaults = remove a c'.vaults }, transfer a storage_cost ∷ [])
      else (do
        total_stake ← checked_sub c'.total_stake v'.staked
        mint_cheddar a v'.farmed v'.staked true (
            put_vault a (record v' { staked = 0; farmed = 0 })
              (record c' { total_stake = total_stake })))

-- The unstaking of a part.
unfoldable pub unstake_part :
    Env → AccountId → Balance → Vault → Contract → Result (Contract × Balance × List Promise)
unfolding put_vault
unstake_part env a amount v c = do
  (v', _, c') ← ping_all env v c
  staked ← checked_sub v'.staked amount
  total_stake ← checked_sub c'.total_stake amount
  (c'', p) ←
      return_tokens a amount
        (put_vault a (record v' { staked = staked }) (record c' { total_stake = total_stake }))
  ok (c'', staked, p ∷ [])

-- Unstaking all closes the account, and returns what was staked.
unfoldable pub unstake : Env → Balance → Contract → Result (Contract × Balance × List Promise)
unfolding assert_is_active assert_one_yocto
unstake env amount c = do
  assert_is_active c
  assert_one_yocto env
  let a = env.predecessor_account_id
  v ← get_vault c a
  assert (leb amount v.staked) "E30: not enough staked tokens"
  if amount == v.staked
      then (close env c >>= λ (c', ps). ok (c', v.staked, ps))
      else unstake_part env a amount v c

unfoldable pub withdraw_crop : Env → Contract → Result (Contract × List Promise)
unfolding assert_is_active put_vault
withdraw_crop env c = do
  assert_is_active c
  let a = env.predecessor_account_id
  v ← get_vault c a
  (v', _, c') ← ping_all env v c
  mint_cheddar a v'.farmed 0 false (put_vault a (record v' { farmed = 0 }) c')

unfoldable pub withdraw_fee : Contract → Result (Contract × List Promise)
withdraw_fee c = do
  assert (ltb 0 c.fee_collected) "zero collected fees"
  ok (record c { fee_collected = 0 }, ft_transfer c.staking_token c.treasury c.fee_collected ∷ [])

unfoldable pub set_active : Env → Bool → Contract → Result Contract
unfolding assert_owner
set_active env is_open c = assert_owner env c >>= λ _. ok (record c { is_active = is_open })

unfoldable pub set_end : Env → ℕ → Contract → Result Contract
unfolding assert_owner
set_end env end c = do
  assert_owner env c
  assert (ltb c.farming_start end) "End must be after start"
  ok (record c { farming_end = end })

unfoldable pub restart : Env → ℕ → ℕ → ℕ → Contract → Result Contract
unfolding assert_owner
restart env start end rate c = do
  assert_owner env c
  start_ns ← mul_u64 start second
  assert (ltb env.block_timestamp start_ns) "new start must be in the future"
  assert (ltb start end) "start must be before end"
  assert (ltb 0 rate) "rate must be positive"
  ok (record c {
    farming_start = start;
    farming_end = end;
    rate = rate;
    reward_acc_round = 0;
    reward_acc = 0;
  })

unfoldable pub ft_on_transfer : Env → AccountId → Balance → Contract → Result (Contract × Balance)
unfolding assert_is_active put_vault
ft_on_transfer env sender_id amount c = do
  assert_is_active c
  assert (env.predecessor_account_id == c.staking_token) "Only {} token transfers are accepted"
  assert (ltb 0 amount) "staked amount must be positive"
  v ← get_vault c sender_id
  (v', _, c') ← ping_all env v c
  staked ← add_u128 v'.staked amount
  total_stake ← add_u128 c'.total_stake amount
  ok (
    record (put_vault sender_id (record v' { staked = staked }) c') { total_stake = total_stake },
    0,
  )

unfoldable pub create_account : AccountId → Balance → Contract → Result Contract
unfolding put_vault
create_account user staked c = do
  n ← add_u64 c.accounts_registered 1
  ok
      (record (put_vault user (record { reward_acc = c.reward_acc; staked = staked; farmed = 0 })
        c) { accounts_registered = n })

-- NEAR that goes back to the caller, if there is any.
unfoldable pub send_back : AccountId → Balance → List Promise
send_back account amount = if ltb 0 amount then transfer account amount ∷ [] else []

unfoldable pub storage_deposit :
    Env → Option AccountId → Contract → Result (Contract × List Promise)
unfolding create_account send_back
storage_deposit env account_id c =
    let amount = env.attached_deposit in
    let account = get_or account_id env.predecessor_account_id in
    if contains_key account c.vaults
    then ok (c, send_back env.predecessor_account_id amount)
    else do
      assert (leb storage_cost amount)
          "The attached deposit is less than the minimum storage balance ({})"
      c' ← create_account account 0 c
      ok (c', send_back env.predecessor_account_id (amount - storage_cost))

unfoldable pub storage_unregister :
    Env → Option Bool → Contract → Result (Contract × Bool × List Promise)
unfolding assert_one_yocto assert_is_active
storage_unregister env force c = do
  assert_one_yocto env
  assert_is_active c
  if get_or force false then (close env c >>= λ (c', ps). ok (c', true, ps)) else ok (c, false, [])

-- The balance of a registered account, all of it in use.
unfoldable pub storage_balance_of : AccountId → Contract → Option (Balance × Balance)
storage_balance_of account_id c =
    if contains_key account_id c.vaults then some (storage_cost, 0) else none
