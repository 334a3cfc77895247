-- ===== src/P2Farm/Tests.antt =====
-- The P2 farm on small states, and each of its theorems at an input that meets its hypotheses.
use cheddar.Prelude.{ℕ, ◌+◌, ◌*◌, ◌≡◌, refl, true, none, [], ◌∷◌, arith, Ensures}
use cheddar.Prelude.Words.{fit, add_u128, add_u64, mul_u64, checked_sub, checked_div, mul_u128}
use cheddar.Near.{Env, AccountId, Balance, failed}
use cheddar.Near.LookupMap.{get, insert, contains_key}
use cheddar.P3Lib.{second}
use cheddar.P2Farm.State
use cheddar.P2Farm.State.{Vault, Contract, Promise, ft_transfer, ft_mint, followed, storage_cost}
use cheddar.P2Farm.Rewards.{
  ping, ping_all, update_reward_acc, compute_reward_acc, current_round, get_vault, put_vault,
  assert_is_active, assert_one_yocto,
}
use cheddar.P2Farm.Transfers.{
  return_tokens, recover_state, recovered_vault, has_failed, return_tokens_callback,
}
use cheddar.P2Farm.Methods.{
  new, ft_on_transfer, unstake, unstake_part, storage_deposit, create_account, send_back,
  withdraw_crop, status, round_start,
}
use cheddar.P2Farm.History.{Step, Reach}
use cheddar.P2Farm.History.Totals.{stakes, stakes-eq-total}
use cheddar.P2Farm.Recoveries.{withdraw_crop-mints_status}

-- A call by `who` with that deposit, in that second.
abbrev call : AccountId → Balance → ℕ → Env
call who deposit now = record {
  predecessor_account_id = who;
  signer_account_id = who;
  attached_deposit = deposit;
  block_timestamp = now * second;
  storage_byte_cost = 0;
  prepaid_gas = 0;
  promise_results = [];
}

abbrev failing_call : Env
failing_call = record (call 7 0 10) { promise_results = failed ∷ [] }

abbrev vault : Vault
vault = record { reward_acc = 0; staked = 100; farmed = 0 }

-- Token 5 is staked for CHEDDAR, token 6; the farming starts at 120. Account 3 staked before.
abbrev farm : Contract
farm = record {
  owner_id = 9;
  cheddar = 6;
  staking_token = 5;
  is_active = true;
  vaults = (3, vault) ∷ [];
  rate = 10;
  farming_start = 120;
  farming_end = 720;
  total_harvested = 0;
  reward_acc = 0;
  reward_acc_round = 0;
  total_stake = 100;
  accounts_registered = 1;
  fee_rate = 100;
  fee_collected = 0;
  treasury = 8;
}

withdraw_crop-mints_status_example :
    Ensures
      (λ d. d.1 ≡ followed (ft_mint 6 3 30) (State.Callback.mint_callback 3 30) ∷ [])
      (withdraw_crop (call 3 0 310) farm)
unfolding get status current_round compute_reward_acc ping checked_sub mul_u128 add_u128 fit
    checked_div round_start mul_u64 add_u64
withdraw_crop-mints_status_example =
    withdraw_crop-mints_status (call 3 0 310) vault farm 3 100 30 240 refl refl (omega arith) refl

abbrev fresh_farm : Contract
fresh_farm = record farm { vaults = []; total_stake = 0; accounts_registered = 0 }

-- Account 3 has staked 100 and taken 40 back, which did not arrive.
abbrev lossy_farm : Contract
lossy_farm = record farm { total_stake = 60 }

lossy_farm-Reach : Reach fresh_farm lossy_farm 40
unfolding storage_deposit contains_key get insert create_account send_back add_u64 put_vault fit
    ft_on_transfer assert_is_active assert_one_yocto get_vault ping_all current_round
    update_reward_acc compute_reward_acc ping add_u128 unstake unstake_part checked_sub
    return_tokens mul_u128 has_failed return_tokens_callback recover_state recovered_vault
lossy_farm-Reach =
    Reach.next
      (Reach.next
        (Reach.next (Reach.next Reach.here (Step.registers (call 3 storage_cost 10) none [] refl))
          (Step.receives_ft (call 5 0 10) 3 100 0 refl))
        (Step.unstakes (call 3 1 10) 40 60
          (followed (ft_transfer 5 3 40) (State.Callback.return_tokens_callback 3 40) ∷ []) refl))
      (Step.returns failing_call 3 40 true refl refl)

stakes-eq-total_example : stakes lossy_farm ≡ 60 + 40
unfolding new
stakes-eq-total_example =
    stakes-eq-total 9 6 5 120 720 10 100 8 {c = fresh_farm} refl lossy_farm-Reach
