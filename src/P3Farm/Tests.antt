-- ===== src/P3Farm/Tests.antt =====
-- The P3 farm on small states, and each of its theorems at an input that meets its hypotheses.
use cheddar.Prelude.{
  ℕ, ◌+◌, ◌*◌, ◌/◌, ◌<◌, ◌≡◌, refl, true, false, none, some, [], ◌∷◌, panic, arith, String, Ensures,
  get_elem?,
}
use cheddar.Prelude.Words.{
  fit, add_u128, add_u64, checked_sub, mul_u256, checked_div, as_u128, mul_u128,
}
use cheddar.Near.{Env, AccountId, Balance, failed}
use cheddar.Near.LookupMap.{get, insert, sum_by, contains_key, All}
use cheddar.P3Lib.{
  second, e24, round_number, safe_mul, position, find_acc_idx, index, add_at, storage_cost,
  check_all_zeros,
}
use cheddar.P3Farm.State.{Vault, Contract, is_empty, fresh_vault}
use cheddar.P3Farm.Rewards.{
  is_empty_vault, ping, get_vault, compute_reward_acc, update_reward_acc, current_round, ping_all,
  min_stake, min_stake_from, stake_units, adjust_units, recompute_stake, put_vault, new_vault,
  recovered_vault,
}
use cheddar.P3Farm.Transfers.{recover_staked}
use cheddar.P3Farm.Staking.{assert_is_active, stake, unstake_part, close, withdraw_crop}
use cheddar.P3Farm.Setup.{
  new, initial_contract, check_vectors, has_farm_lengths, has_stake_lengths, expected_deposit,
  setup_deposit, finalize_setup, all_deposited,
}
use cheddar.P3Farm.Methods.{
  ft_on_transfer, setup_reward_deposit, other_msg, storage_deposit, create_account, send_back,
}
use cheddar.P3Farm.Units.{IsCounted}
use cheddar.P3Farm.History.{Step, Reach}
use cheddar.P3Farm.History.Counted.{staked_units-eq-sum}
use cheddar.P3Farm.Emission.{owed}
use cheddar.P3Farm.Emission.Earnings.{
  stake-EarnedAtMost, withdraw_crop-Harvested, EarnedAtMost, Harvested,
}
use cheddar.P3Farm.Recoveries.{Restaked, recover_staked-owed}
use cheddar.P3Farm.Stakes.{Staked, stake-Staked, Unstaked, unstake_part-Unstaked}
use cheddar.P3Farm.Deposits.{
  Deposited, setup_deposit-Deposited, setup_deposit-once, finalize_setup-guarded,
}
use cheddar.P3Farm.Units.Stale.{TakenOff, close-stale}

-- A call by `who` with that deposit, in that second.
abbrev call : AccountId → Balance → ℕ → Env
call who deposit now = record {
  predecessor_account_id = who;
  signer_account_id = who;
  attached_deposit = deposit;
  block_timestamp = now * second;
  storage_byte_cost = 0;
  prepaid_gas = 0;
  promise_results = [];
}

abbrev failing_call : Env
failing_call = record (call 7 0 300) { promise_results = failed ∷ [] }

abbrev vault : Vault
vault = record {
  reward_acc = 0;
  staked = 100 ∷ 120 ∷ [];
  min_stake = 100;
  farmed = 0;
  farmed_recovered = 0 ∷ 9 ∷ 4 ∷ [];
  cheddy = "";
}

-- Two tokens are staked, 11 and 12; three are farmed, 21, 22 and 23. The farming starts at 120.
abbrev farm : Contract
farm = record {
  is_active = true;
  setup_finalized = true;
  owner_id = 9;
  treasury = 8;
  vaults = (3, vault) ∷ [];
  stake_tokens = 11 ∷ 12 ∷ [];
  staked_units = 100;
  stake_rates = e24 ∷ e24 ∷ [];
  farm_tokens = 21 ∷ 22 ∷ 23 ∷ [];
  farm_token_rates = e24 ∷ e24 ∷ e24 ∷ [];
  farm_unit_emission = 1_000;
  farm_deposits = 10_000 ∷ 10_000 ∷ 0 ∷ [];
  farming_start = 120;
  farming_end = 720;
  cheddar_nft = 30;
  cheddar_nft_boost = 250;
  total_harvested = 50 ∷ 50 ∷ 50 ∷ [];
  reward_acc = 0;
  reward_acc_round = 0;
  total_stake = 100 ∷ 120 ∷ [];
  accounts_registered = 1;
  fee_rate = 100;
  fee_collected = 0 ∷ 0 ∷ [];
}

farm-IsCounted : IsCounted farm
unfolding sum_by All min_stake min_stake_from safe_mul mul_u256 checked_div as_u128 fit is_empty
farm-IsCounted = record {
  counted = refl;
  rated = (refl, tt);
  one_rate_each = refl;
  has_rate = omega arith;
}

stake-EarnedAtMost_example : Ensures (EarnedAtMost 3 farm) (stake (call 11 0 300) 3 11 50 farm)
unfolding current_round round_number checked_sub
stake-EarnedAtMost_example =
    stake-EarnedAtMost (call 11 0 300) 3 11 50 farm 3 farm-IsCounted refl (omega arith)

withdraw_crop-Harvested_example :
    Ensures (Harvested 3 3 3_000 farm) (withdraw_crop (call 3 0 300) farm)
unfolding current_round round_number checked_sub get ping_all update_reward_acc compute_reward_acc
    ping mul_u128 add_u128 checked_div fit
withdraw_crop-Harvested_example =
    withdraw_crop-Harvested (call 3 0 300) vault farm 3 farm-IsCounted refl (omega arith) refl refl

stake-Staked_example : Ensures (Staked 3 1 50 vault farm) (stake (call 12 0 300) 3 12 50 farm)
unfolding get find_acc_idx position
stake-Staked_example = stake-Staked (call 12 0 300) 3 12 50 1 vault farm refl refl

unstake_part-Unstaked_example :
    Ensures (Unstaked 3 11 0 50 vault farm) (unstake_part (call 3 1 300) 3 0 50 vault farm)
unstake_part-Unstaked_example =
    unstake_part-Unstaked (call 3 1 300) 3 11 0 50 vault farm refl (omega arith)

abbrev setting_up : Contract
setting_up = record farm { setup_finalized = false; farm_deposits = 0 ∷ 0 ∷ 0 ∷ [] }

setup_deposit-Deposited_example :
    Ensures (Deposited 21 10_000 setting_up) (setup_deposit 21 10_000 setting_up)
setup_deposit-Deposited_example = setup_deposit-Deposited 21 10_000 setting_up

setup_deposit-once_example :
    (m : String) × (setup_deposit 21 7 (record setting_up { farm_deposits = 10_000 ∷ 0 ∷ 0 ∷ [] })
      ≡ panic m)
unfolding setup_deposit find_acc_idx position index expected_deposit round_number checked_sub
    mul_u128 safe_mul mul_u256 checked_div as_u128 fit
setup_deposit-once_example = setup_deposit-once 21 10_000 7 setting_up refl (omega arith)

-- Seven more units were earned by then for each staked unit; ten tokens come back.
abbrev later_farm : Contract
later_farm = record farm { reward_acc = 70_000_000; reward_acc_round = 3 }

abbrev restaked : Contract
restaked = record later_farm {
  vaults = (3, record vault { staked = 110 ∷ 120 ∷ []; min_stake = 110 }) ∷ [];
  staked_units = 110;
}

recover_staked-owed_example :
    (w : Vault) × (get 3 restaked.vaults ≡ some w)
    × Restaked 3 0 10 vault later_farm w restaked
    × (restaked.reward_acc ≡ later_farm.reward_acc)
    × (owed 70_000_000 w + 100 * 70_000_000 ≡ owed 70_000_000 vault + w.min_stake * 70_000_000)
unfolding recover_staked recovered_vault recompute_stake stake_units adjust_units put_vault get
    insert min_stake min_stake_from safe_mul mul_u256 checked_div as_u128 fit is_empty index add_at
    add_u128
recover_staked-owed_example = recover_staked-owed 3 0 10 vault later_farm {c' = restaked} refl refl

abbrev fresh_farm : Contract
fresh_farm = record farm {
  setup_finalized = false;
  vaults = [];
  staked_units = 0;
  farm_tokens = 21 ∷ [];
  farm_token_rates = e24 ∷ [];
  farm_deposits = 0 ∷ [];
  total_harvested = 0 ∷ [];
  total_stake = 0 ∷ 0 ∷ [];
  accounts_registered = 0;
}

abbrev staked_farm : Contract
staked_farm = record fresh_farm {
  setup_finalized = true;
  vaults =
      (
        3,
        record {
          reward_acc = 0;
          staked = 50 ∷ 0 ∷ [];
          min_stake = 0;
          farmed = 0;
          farmed_recovered = 0 ∷ [];
          cheddy = "";
        },
      )
      ∷ [];
  farm_deposits = 10_000 ∷ [];
  total_stake = 50 ∷ 0 ∷ [];
  accounts_registered = 1;
}

-- The rewards are deposited, the setup ends, account 3 registers and stakes.
staked_farm-Reach : Reach fresh_farm staked_farm
unfolding ft_on_transfer setup_deposit find_acc_idx position index expected_deposit round_number
    checked_sub mul_u128 safe_mul mul_u256 checked_div as_u128 fit finalize_setup all_deposited
    storage_deposit contains_key get insert create_account send_back add_u64 put_vault new_vault
    fresh_vault assert_is_active stake get_vault ping_all current_round update_reward_acc
    compute_reward_acc ping add_at add_u128 recompute_stake stake_units adjust_units min_stake
    min_stake_from is_empty
staked_farm-Reach =
    Reach.next
      (Reach.next
        (Reach.next
          (Reach.next Reach.here
            (Step.receives_ft (call 21 0 10) 9 10_000 setup_reward_deposit 0 refl))
          (Step.finalizes (call 9 0 10) refl))
        (Step.registers (call 3 storage_cost 10) none [] refl))
      (Step.receives_ft (call 11 0 10) 3 50 (other_msg "") 0 refl)

staked_units-eq-sum_example : IsCounted staked_farm
unfolding new initial_contract check_vectors has_farm_lengths has_stake_lengths
staked_units-eq-sum_example =
    staked_units-eq-sum (call 9 0 10) 9 (11 ∷ 12 ∷ []) (e24 ∷ e24 ∷ []) 1_000 (21 ∷ []) (e24 ∷ [])
      120 720 30 250 100 8 {c = fresh_farm} refl (omega arith) staked_farm-Reach

-- All three deposits are there.
abbrev deposited : Contract
deposited = record farm { setup_finalized = false; farm_deposits = 10_000 ∷ 10_000 ∷ 1 ∷ [] }

abbrev finalized : Contract
finalized = record deposited { setup_finalized = true }

finalize_setup-guarded_example :
    (deposited.setup_finalized ≡ false)
    × (finalized.setup_finalized ≡ true)
    × (9 + 60 < 120)
    × (finalized.farm_tokens ≡ deposited.farm_tokens)
    × (finalized.farm_deposits ≡ deposited.farm_deposits)
    × ((x : Balance) × (get_elem? finalized.farm_deposits 1 ≡ some x) × (0 < x))
unfolding finalize_setup all_deposited checked_sub
finalize_setup-guarded_example =
    finalize_setup-guarded (call 9 0 9) 1 22 deposited {c' = finalized} refl refl refl

-- The owner has halved the rates since account 3 staked.
abbrev cheaper_farm : Contract
cheaper_farm = record farm { stake_rates = e24 / 2 ∷ e24 / 2 ∷ [] }

close-stale_example : Ensures (TakenOff 50 vault cheaper_farm) (close (call 3 1 60) cheaper_farm)
unfolding get min_stake min_stake_from safe_mul mul_u256 checked_div as_u128 fit is_empty
    is_empty_vault check_all_zeros
close-stale_example = close-stale (call 3 1 60) vault 50 cheaper_farm refl refl refl refl
