-- ===== src/P4Farm/Emission/Tests.antt =====
-- The P4 farm along a history of calls, from its creation to a harvest, and what it reports before it.
use cheddar.Prelude.{◌≡◌, refl, true, [], ◌∷◌, ok, some, List, Ensures}
use cheddar.Prelude.Words.{
  mul_u64, add_u64, fit, add_u128, checked_sub, mul_u256, checked_div, as_u128, mul_u128,
}
use cheddar.Near.LookupMap.{get, insert}
use cheddar.P3Lib.{round_number, safe_mul, position, find_acc_idx, index, add_at, sub_at}
use cheddar.P4Farm.State.{Contract, Promise, ft_transfer, farmed_sent}
use cheddar.P4Farm.Identifiers.{
  is_empty, expected_cheddar_stake, add_usize, min_stake, min_stake_from,
}
use cheddar.P4Farm.Rewards.{
  ping, get_vault, compute_reward_acc, update_reward_acc, current_round, ping_all, stake_units,
  adjust_units, recompute_stake, put_vault, get_number_of_staked_tokens, sum_lengths,
}
use cheddar.P4Farm.Transfers.{push_at, send_crop, withdraw_crop_from, transfer_farmed_tokens}
use cheddar.P4Farm.Staking.{assert_is_active, stake_cheddar, nft_stake, withdraw_crop}
use cheddar.P4Farm.Methods.{ft_on_transfer, cheddar_stake, nft_on_transfer, to_farm}
use cheddar.P4Farm.History.{Step, Reach}
use cheddar.P4Farm.Emission.History.{sent_all, worth_all, promises, units_paid}
use cheddar.P4Farm.Emission.Crops.{crop_sent, worth_at}
use cheddar.P4Farm.Emission.Exits.{crop_of, crop_after, last_of}
use cheddar.P4Farm.Reports.{amounts, withdraw_crop-amounts}
use cheddar.P4Farm.Methods.{Status, status, vault_status, farmed_tokens_of}
use cheddar.P4Farm.Tests.{
  call, signed_call, parse_cheddy, farm_with, empty_vault, fresh_farm, staked_farm-Reach,
}

-- Account 3 has an NFT of each contract, and the Cheddar for both.
abbrev paired_farm : Contract
paired_farm =
    record (farm_with
      (record empty_vault {
        staked = ("a" ∷ []) ∷ ("b" ∷ []) ∷ [];
        min_stake = 1;
        cheddar_staked = 1_110;
      })
      (1 ∷ 1 ∷ [])) { total_cheddar_stake = 1_110 }

-- It has farmed for two rounds, and harvests 2000.
abbrev paid_farm : Contract
paid_farm =
    record (farm_with
      (record empty_vault {
        staked = ("a" ∷ []) ∷ ("b" ∷ []) ∷ [];
        min_stake = 1;
        cheddar_staked = 1_110;
        reward_acc = 20_000_000_000;
      })
      (1 ∷ 1 ∷ [])) {
        total_cheddar_stake = 1_110;
        reward_acc = 20_000_000_000;
        reward_acc_round = 2;
        total_harvested = 2_000 ∷ [];
        farm_deposits = 8_000 ∷ [];
      }

paid_farm-Reach : Reach parse_cheddy fresh_farm paid_farm
unfolding ft_on_transfer find_acc_idx position index round_number checked_sub mul_u128 safe_mul
    mul_u256 checked_div as_u128 fit get insert put_vault assert_is_active stake_cheddar get_vault
    nft_on_transfer nft_stake get_number_of_staked_tokens sum_lengths add_usize
    expected_cheddar_stake ping_all current_round update_reward_acc compute_reward_acc ping push_at
    add_at sub_at add_u128 recompute_stake stake_units adjust_units min_stake min_stake_from
    is_empty withdraw_crop send_crop withdraw_crop_from transfer_farmed_tokens
paid_farm-Reach =
    Reach.next
      (Reach.next {c₂ = paired_farm}
        (Reach.next staked_farm-Reach (Step.receives_ft (call 40 0 10) 3 555 cheddar_stake 0 refl))
        (Step.receives_nft (signed_call 11 3 0 10) 3 "a" to_farm true refl))
      (Step.withdraws_crop (call 3 0 250) (ft_transfer 21 3 2_000 (farmed_sent 3 0 2_000) ∷ [])
        refl)

-- The harvest sends 2000 of the only farm token, and what its units are worth is the same.
sent_test :
    (sent_all parse_cheddy 0 paid_farm-Reach ≡ 2_000)
    × (worth_all parse_cheddy 0 paid_farm-Reach ≡ 2_000)
unfolding sent_all worth_all promises crop_sent units_paid crop_of crop_after worth_at last_of
    paid_farm-Reach staked_farm-Reach get ping_all current_round update_reward_acc
    compute_reward_acc ping round_number checked_sub mul_u128 checked_div add_u128 fit
sent_test = (refl, refl)

abbrev reported : Status
reported = record {
  stake_tokens = ("a" ∷ []) ∷ ("b" ∷ []) ∷ [];
  stake = 1;
  farmed_units = 2_000;
  farmed_tokens = 2_000 ∷ [];
  boost_nfts = "";
  timestamp = 180;
  total_cheddar_staked = 1_110;
}

reports : status (call 3 0 250) 3 paired_farm ≡ ok (some reported)
unfolding status vault_status farmed_tokens_of get current_round round_number checked_sub
    compute_reward_acc mul_u128 checked_div add_u128 fit ping safe_mul mul_u256 as_u128 mul_u64
    add_u64
reports = refl

withdraw_crop-amounts_example :
    Ensures
      (λ (t : Contract × List Promise). amounts t.1 ≡ 2_000 ∷ [])
      (withdraw_crop (call 3 0 250) paired_farm)
withdraw_crop-amounts_example =
    withdraw_crop-amounts (call 3 0 250) paired_farm reported refl reports
