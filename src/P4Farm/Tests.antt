-- ===== src/P4Farm/Tests.antt =====
-- The P4 farm on small states, and each of its theorems at an input that meets its hypotheses.
use Prim.Native.String.{count}
use text.Mathlib.Text.{◌==◌ as str_eq}
use text.Mathlib.TextEquality.{eq_iff}
use cheddar.Prelude.{
  ℕ, ◌+◌, ◌*◌, ◌≤◌, ◌≡◌, refl, ap, true, false, none, some, List, [], ◌∷◌, ok, arith, Ensures, Bool,
  Bool-cases, inl, inr, if◌then◌else◌, length,
}
use cheddar.Prelude.Words.{
  fit, add_u128, add_u64, checked_sub, mul_u256, checked_div, as_u128, mul_u128,
}
use cheddar.Near.{Env, AccountId, Balance}
use cheddar.Near.LookupMap.{get, insert, remove, contains_key}
use cheddar.P3Lib.{
  second, e24, round_number, safe_mul, position, find_acc_idx, index, add_at, sub_at, storage_cost,
}
use cheddar.P4Farm.State.{
  TokenId, ParseAccount, Vault, Contract, Promise, nft_transfer, ft_transfer, staked_sent,
  farmed_sent, fresh_vault,
}
use cheddar.P4Farm.Identifiers.{
  is_empty, split_at_delimiter, extract_contract_token_ids, join_ids, decimal, decimal_from,
  expected_cheddar_stake, add_usize, find_token_idx, token_position, min_stake, min_stake_from,
  check_all_empty,
}
use cheddar.P4Farm.Rewards.{
  ping, get_vault, compute_reward_acc, update_reward_acc, current_round, ping_all, stake_units,
  adjust_units, recompute_stake, put_vault, new_vault, get_number_of_staked_tokens, sum_lengths,
  is_empty_vault,
}
use cheddar.P4Farm.Transfers.{
  push_at, transfer_staked_nft, transfer_staked_cheddar, send_crop, withdraw_crop_from,
  transfer_farmed_tokens,
}
use cheddar.P4Farm.Staking.{
  assert_is_active, assert_one_yocto, stake_cheddar, nft_stake, boost_stake, unstake, unstake_one,
  close, pay_out, unregister, return_staked_from, return_tokens, return_boost, return_cheddar,
  withdraw_crop,
}
use cheddar.P4Farm.Setup.{
  Params, new, initial_contract, check_vectors, has_farm_lengths, has_stake_lengths,
  expected_deposit, setup_deposit, finalize_setup, all_deposited,
}
use cheddar.P4Farm.Methods.{
  ft_on_transfer, setup_reward_deposit, cheddar_stake, nft_on_transfer, to_farm, storage_deposit,
  create_account, send_back,
}
use cheddar.P4Farm.Counts.{total_at}
use cheddar.P4Farm.Accounts.{IsAccounted}
use cheddar.P4Farm.History.{Step, Reach}
use cheddar.P4Farm.History.Accounted.{totals-Accounted}
use cheddar.P4Farm.History.Backed.{payouts-Backed}
use cheddar.P4Farm.Boosts.{extract-join_ids, boost_stake-Refused, NeedsTwoCharacters, has_delimiter}
use cheddar.P4Farm.Stakes.{Staked, nft_on_transfer-Staked}
use cheddar.P4Farm.Stakes.Returns.{Unstaked, unstake-Unstaked}
use cheddar.P4Farm.CheddarStakes.{with_cheddar, ft_on_transfer-any_token}

-- A call by `who` with that deposit, in that second; `signer` signed the transaction.
abbrev pub signed_call : AccountId → AccountId → Balance → ℕ → Env
signed_call who signer deposit now = record {
  predecessor_account_id = who;
  signer_account_id = signer;
  attached_deposit = deposit;
  block_timestamp = now * second;
  storage_byte_cost = 0;
  prepaid_gas = 0;
  promise_results = [];
}

abbrev pub call : AccountId → Balance → ℕ → Env
call who deposit now = signed_call who who deposit now

-- Only the text of the Cheddy contract is parsed, as account 30.
abbrev pub parse_cheddy : ParseAccount
parse_cheddy s = if str_eq s "cheddy.near" then some 30 else none

parse_cheddy-NeedsTwoCharacters : NeedsTwoCharacters parse_cheddy
parse_cheddy-NeedsTwoCharacters s short = elim (Bool-cases (str_eq s "cheddy.near")) [
  | inl same ↦
      let long : count s ≡ 11 = ap count ((eq_iff s "cheddy.near").0 same) in
      absurd (omega (arith, long))
  | inr other ↦ rw other
]

-- NFTs of 11 and 12 are staked, and token 21 is farmed from 120 to 720; the Cheddar of one NFT is 555.
abbrev pub params : Params
params = record {
  owner_id = 9;
  stake_nft_tokens = 11 ∷ 12 ∷ [];
  stake_rates = 1 ∷ 1 ∷ [];
  farm_unit_emission = 1_000;
  farm_tokens = 21 ∷ [];
  farm_token_rates = e24 ∷ [];
  farming_start = 120;
  farming_end = 720;
  boost_nft_contracts = 31 ∷ 30 ∷ [];
  cheddy = 30;
  nft_boost = 250;
  cheddy_boost = 300;
  cheddar_rate = 555;
  cheddar = 40;
  treasury = 8;
}

abbrev pub farm_with : Vault → List Balance → Contract
farm_with v total = record {
  is_active = true;
  setup_finalized = true;
  owner_id = 9;
  treasury = 8;
  vaults = (3, v) ∷ [];
  stake_nft_tokens = 11 ∷ 12 ∷ [];
  staked_units = v.min_stake;
  stake_rates = 1 ∷ 1 ∷ [];
  farm_tokens = 21 ∷ [];
  farm_token_rates = e24 ∷ [];
  farm_unit_emission = 1_000;
  farm_deposits = 10_000 ∷ [];
  farming_start = 120;
  farming_end = 720;
  boost_nft_contracts = 31 ∷ 30 ∷ [];
  cheddy = 30;
  total_boost = 0 ∷ 0 ∷ [];
  nft_boost = 250;
  cheddy_boost = 300;
  total_harvested = 0 ∷ [];
  reward_acc = 0;
  reward_acc_round = 0;
  total_stake = total;
  total_cheddar_stake = 5_550;
  accounts_registered = 1;
  cheddar_rate = 555;
  cheddar = 40;
}

abbrev pub empty_vault : Vault
empty_vault = record {
  reward_acc = 0;
  staked = [] ∷ [] ∷ [];
  min_stake = 0;
  farmed = 0;
  farmed_recovered = 0 ∷ [];
  boost_nft = "";
  cheddar_staked = 1_110;
}

-- Two NFTs of one contract and one of the other.
abbrev vault : Vault
vault = record empty_vault {
  staked = ("a" ∷ ("b" ∷ [])) ∷ ("z" ∷ []) ∷ [];
  min_stake = 1;
  cheddar_staked = 1_665;
}

abbrev farm : Contract
farm = farm_with vault (2 ∷ 1 ∷ [])

decimal_test : decimal 4_095 ≡ "4095"
unfolding decimal decimal_from
decimal_test = refl

split_test : split_at_delimiter "a.near@7@1" ≡ "a.near" ∷ ("7" ∷ ("1" ∷ []))
unfolding split_at_delimiter
split_test = refl

extract-join_ids_example :
    extract_contract_token_ids parse_cheddy (join_ids "cheddy.near" "7") ≡ ok (30, "7")
unfolding has_delimiter
extract-join_ids_example = extract-join_ids parse_cheddy "cheddy.near" "7" refl refl

abbrev pub fresh_farm : Contract
fresh_farm = record (farm_with empty_vault (0 ∷ 0 ∷ [])) {
  setup_finalized = false;
  vaults = [];
  farm_deposits = 0 ∷ [];
  total_cheddar_stake = 0;
  accounts_registered = 0;
}

-- Account 3 has staked the Cheddar of one NFT, and then the NFT "b" of contract 12.
abbrev pub one_staked : Vault
one_staked = record empty_vault { staked = [] ∷ ("b" ∷ []) ∷ []; cheddar_staked = 555 }

abbrev pub staked_farm : Contract
staked_farm = record (farm_with one_staked (0 ∷ 1 ∷ [])) { total_cheddar_stake = 555 }

unfoldable pub staked_farm-Reach : Reach parse_cheddy fresh_farm staked_farm
unfolding ft_on_transfer setup_deposit find_acc_idx position index expected_deposit round_number
    checked_sub mul_u128 safe_mul mul_u256 checked_div as_u128 fit finalize_setup all_deposited
    storage_deposit contains_key get insert create_account send_back add_u64 put_vault new_vault
    fresh_vault assert_is_active stake_cheddar get_vault nft_on_transfer nft_stake
    get_number_of_staked_tokens sum_lengths add_usize expected_cheddar_stake ping_all current_round
    update_reward_acc compute_reward_acc ping push_at add_at add_u128 recompute_stake stake_units
    adjust_units min_stake min_stake_from is_empty
staked_farm-Reach =
    Reach.next
      (Reach.next
        (Reach.next
          (Reach.next
            (Reach.next Reach.here
              (Step.receives_ft (call 21 0 10) 9 10_000 setup_reward_deposit 0 refl))
            (Step.finalizes (call 9 0 10) refl))
          (Step.registers (call 3 storage_cost 10) none [] refl))
        (Step.receives_ft (call 40 0 10) 3 555 cheddar_stake 0 refl))
      (Step.receives_nft (signed_call 12 3 0 10) 3 "b" to_farm true refl)

totals-Accounted_example : IsAccounted parse_cheddy 1 staked_farm
unfolding new initial_contract check_vectors has_farm_lengths has_stake_lengths
totals-Accounted_example =
    totals-Accounted parse_cheddy (call 9 0 10) params 1 {c = fresh_farm} refl (omega arith)
      staked_farm-Reach

-- Account 3 has farmed for two rounds, and harvests 2000.
abbrev harvested_farm : Contract
harvested_farm = record (farm_with (record vault { reward_acc = 20_000_000_000 }) (2 ∷ 1 ∷ [])) {
  reward_acc = 20_000_000_000;
  reward_acc_round = 2;
  total_harvested = 2_000 ∷ [];
  farm_deposits = 8_000 ∷ [];
}

harvest-Reach : Reach parse_cheddy farm harvested_farm
unfolding withdraw_crop assert_is_active get_vault get ping_all current_round round_number
    checked_sub update_reward_acc compute_reward_acc mul_u128 checked_div add_u128 fit ping insert
    put_vault send_crop withdraw_crop_from index safe_mul mul_u256 as_u128 transfer_farmed_tokens
    add_at sub_at
harvest-Reach =
    Reach.next Reach.here (
      Step.withdraws_crop (call 3 0 250) (ft_transfer 21 3 2_000 (farmed_sent 3 0 2_000) ∷ []) refl)

payouts-Backed_example :
    (harvested_farm.setup_finalized ≡ true)
    × (total_at 0 harvested_farm.total_harvested + total_at 0 harvested_farm.farm_deposits
        ≤ total_at 0 farm.total_harvested + total_at 0 farm.farm_deposits)
payouts-Backed_example = payouts-Backed parse_cheddy 0 refl harvest-Reach

nft_on_transfer-Staked_example :
    Ensures (Staked 3 1 "q" empty_vault (farm_with empty_vault (0 ∷ 0 ∷ []))) (
      nft_on_transfer parse_cheddy
        (signed_call 12 3 0 130)
        3
        "q"
        to_farm
        (farm_with empty_vault (0 ∷ 0 ∷ [])))
unfolding get find_acc_idx position
nft_on_transfer-Staked_example =
    nft_on_transfer-Staked parse_cheddy (signed_call 12 3 0 130) 3 "q" 1 empty_vault
      (farm_with empty_vault (0 ∷ 0 ∷ [])) refl refl

unstake-Unstaked_example :
    Ensures (Unstaked 3 11 0 "b" vault farm) (unstake parse_cheddy (call 3 1 130) 11 "b" farm)
unfolding get find_acc_idx position
unstake-Unstaked_example =
    unstake-Unstaked parse_cheddy (call 3 1 130) 11 "b" 0 vault farm refl refl (omega arith)

-- Account 3 has a boost NFT already, and another one is refused.
abbrev boosted_farm : Contract
boosted_farm = farm_with (record vault { boost_nft = "cheddy.near@5" }) (2 ∷ 1 ∷ [])

boost_stake-Refused_example : ◌≡◌ {A = Contract × Bool} (boosted_farm, false) (boosted_farm, false)
unfolding boost_stake get_vault get find_acc_idx position is_empty
boost_stake-Refused_example =
    boost_stake-Refused parse_cheddy (call 31 0 130) 3 31 "6" boosted_farm
      {r = (boosted_farm, false)} parse_cheddy-NeedsTwoCharacters (omega arith) refl

-- Token 99 is not the Cheddar of the farm, account 40.
ft_on_transfer-any_token_example :
    ft_on_transfer (call 99 0 130) 3 500 cheddar_stake farm ≡ ok (with_cheddar 3 500 vault farm, 0)
unfolding get
ft_on_transfer-any_token_example =
    ft_on_transfer-any_token (call 99 0 130) 3 500 vault farm refl refl refl (omega arith)
      (omega arith) (omega arith)

unstake_test :
    (r : Contract × List TokenId × List Promise) × (unstake parse_cheddy (call 3 1 130) 11 "b" farm
      ≡ ok r)
    × (r.1 ≡ "a" ∷ [])
    × (r.2 ≡ nft_transfer 11 3 "b" (staked_sent 3 0 "b") ∷ [])
unfolding unstake assert_is_active assert_one_yocto find_acc_idx position get_vault get index
    find_token_idx token_position get_number_of_staked_tokens sum_lengths add_usize unstake_one
    ping_all current_round round_number checked_sub update_reward_acc compute_reward_acc mul_u128
    checked_div add_u128 fit ping recompute_stake stake_units adjust_units min_stake min_stake_from
    safe_mul mul_u256 as_u128 is_empty put_vault insert transfer_staked_nft sub_at
unstake_test = (_, refl, refl, refl)

-- The account is closed: its three NFTs and its Cheddar are sent.
close_test :
    (r : Contract × List Promise) × (close parse_cheddy (call 3 1 130) farm ≡ ok r)
    × (r.0.vaults ≡ [])
    × (r.0.total_stake ≡ 0 ∷ 0 ∷ [])
    × (r.0.staked_units ≡ 0)
    × (r.0.total_cheddar_stake ≡ 3_885)
    × (length r.1 ≡ 4)
unfolding close assert_is_active assert_one_yocto get_vault get get_number_of_staked_tokens
    sum_lengths add_usize ping_all current_round round_number checked_sub update_reward_acc
    compute_reward_acc mul_u128 checked_div add_u128 fit ping is_empty_vault check_all_empty pay_out
    min_stake min_stake_from safe_mul mul_u256 as_u128 return_staked_from return_tokens index
    transfer_staked_nft sub_at send_crop return_boost is_empty return_cheddar
    transfer_staked_cheddar unregister remove
close_test = (_, refl, refl, refl, refl, refl, refl)
