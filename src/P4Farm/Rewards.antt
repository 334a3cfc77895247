-- ===== src/P4Farm/Rewards.antt =====
-- The reward accumulator and the stake units of a vault (p4-farm-nft/src/vault.rs).
use cheddar.Prelude.{
  ℕ, ◌-◌, ◌/◌, ◌&&◌, ◌||◌, Bool, List, [], ◌∷◌, none, some, Result, ok, ◌>>=◌, expect, ltb, leb,
  ◌==◌, ◌!=◌, if◌then◌else◌, length,
}
use cheddar.Prelude.Words.{mul_u128, add_u128, add_u64, checked_div, checked_sub}
use cheddar.Near.{Env, AccountId, Balance}
use cheddar.Near.LookupMap.{get, insert}
use cheddar.P3Lib.{second, acc_overflow, basis_p, round_number}
use cheddar.P4Farm.State.{TokenId, ParseAccount, Vault, Contract, fresh_vault}
use cheddar.P4Farm.Identifiers.{
  add_usize, is_empty, extract_contract_token_ids, min_stake, check_all_empty,
}

-- `Vault::ping`
unfoldable pub ping : Vault → Balance → ℕ → Result Vault
ping v reward_acc round = if round == 0 || leb reward_acc v.reward_acc then ok v else do
  grown ← checked_sub reward_acc v.reward_acc
  product ← mul_u128 v.min_stake grown
  farmed ← add_u128 v.farmed (product / acc_overflow)
  ok (record v { farmed = farmed; reward_acc = reward_acc })

-- `Vault::is_empty`
unfoldable pub is_empty_vault : Vault → Bool
is_empty_vault v =
    check_all_empty v.staked && v.farmed == 0 && is_empty v.boost_nft && v.cheddar_staked == 0

-- `iter().map(|contract_tokens| contract_tokens.len()).sum()`
unfoldable pub sum_lengths : ℕ → List (List TokenId) → Result ℕ
sum_lengths acc [] = ok acc
sum_lengths acc (x ∷ xs) = add_usize acc (length x) >>= λ acc'. sum_lengths acc' xs

unfoldable pub get_number_of_staked_tokens : Vault → Result ℕ
unfolding sum_lengths
get_number_of_staked_tokens v = sum_lengths 0 v.staked

unfoldable pub get_vault : Contract → AccountId → Result Vault
get_vault c account_id =
    expect (get account_id c.vaults) "E10: account not found. Register the account."

-- The farmed units for one staked unit, scaled, that the rounds since the last update add.
unfoldable pub compute_reward_acc : ℕ → Contract → Result ℕ
compute_reward_acc round c =
    if c.reward_acc_round == round || c.staked_units == 0 then ok c.reward_acc else do
      rounds ← checked_sub round c.reward_acc_round
      emitted ← mul_u128 rounds c.farm_unit_emission
      scaled ← mul_u128 emitted acc_overflow
      each ← checked_div scaled c.staked_units
      add_u128 c.reward_acc each

unfoldable pub update_reward_acc : ℕ → Contract → Result Contract
update_reward_acc round c = do
  new_acc ← compute_reward_acc round c
  if c.staked_units == 0 || new_acc != c.reward_acc
      then ok (record c { reward_acc = new_acc; reward_acc_round = round })
      else ok c

unfoldable pub current_round : Env → Contract → Result ℕ
current_round env c = round_number c.farming_start c.farming_end (env.block_timestamp / second)

-- The accumulator is brought up to the current round, and then the vault to the accumulator.
unfoldable pub ping_all : Env → Vault → Contract → Result (Vault × Contract)
ping_all env v c = do
  r ← current_round env c
  c' ← update_reward_acc r c
  v' ← ping v c'.reward_acc r
  ok (v', c')

-- `staked_units` follows the change of a vault's units.
unfoldable pub adjust_units : Balance → Balance → Contract → Result Contract
adjust_units old s c =
    if ltb old s
    then (add_u128 c.staked_units (s - old) >>= λ u. ok (record c { staked_units = u }))
    else if ltb s old
    then (checked_sub c.staked_units (old - s) >>= λ u. ok (record c { staked_units = u }))
    else ok c

-- `self.vaults.insert(user, &v)`
unfoldable pub put_vault : AccountId → Vault → Contract → Contract
put_vault user v c = record c { vaults = insert user v c.vaults }

unfoldable pub new_vault : Contract → Vault
unfolding fresh_vault
new_vault c = fresh_vault (length c.stake_nft_tokens) (length c.farm_tokens) c.reward_acc

-- A vault that is there, or a fresh one that is registered now.
unfoldable pub recovered_vault : AccountId → Contract → Result (Vault × Contract)
unfolding new_vault
recovered_vault user c = elim (get user c.vaults) [
  | some v ↦ ok (v, c)
  | none ↦ do
    n ← add_u64 c.accounts_registered 1
    ok (new_vault c, record c { accounts_registered = n })
]

module _ (parse : ParseAccount) where
  -- The units that those tokens and that boost NFT have.
  unfoldable pub stake_units : Vault → Contract → Result Balance
  stake_units v c = do
    s ← min_stake v.staked c.stake_rates
    if is_empty v.boost_nft then ok s else do
      (boost_contract, _) ← extract_contract_token_ids parse v.boost_nft
      let nft_boost_rate = if boost_contract == c.cheddy then c.cheddy_boost else c.nft_boost
      boosted ← mul_u128 s nft_boost_rate
      add_u128 s (boosted / basis_p)

  -- `_recompute_stake`
  unfoldable pub recompute_stake : Vault → Contract → Result (Vault × Contract)
  recompute_stake v c = do
    s ← stake_units v c
    c' ← adjust_units v.min_stake s c
    ok (record v { min_stake = s }, c')
