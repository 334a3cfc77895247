-- ===== src/P1Fixed/Tests.antt =====
-- The fixed P1 pool on a small state.
use cheddar.Prelude.{ℕ, ◌*◌, ◌≡◌, refl, true, String, [], ◌∷◌, panic, arith}
use cheddar.Prelude.Words.{mul_u64, fit}
use cheddar.Near.{Env, AccountId, Balance}
use cheddar.Near.LookupMap.{get, insert}
use cheddar.P1Fixed.State.{Contract, min_stake}
use cheddar.P1Fixed.Rewards.{current_round, round_from_unix}
use cheddar.P1Fixed.Methods.{new, stake, staked_vault, close, unstake}
use cheddar.P1Fixed.History.{Step, Reach, stakes-locked}

abbrev call : AccountId → Balance → ℕ → Env
call who deposit now = record {
  predecessor_account_id = who;
  signer_account_id = who;
  attached_deposit = deposit;
  block_timestamp = now * 1_000_000_000;
  storage_byte_cost = 0;
  prepaid_gas = 0;
  promise_results = [];
}

abbrev pool : Contract
pool = record {
  owner_id = 9;
  cheddar_id = 6;
  is_active = true;
  vaults = [];
  emission_rate = 10;
  total_stake = 0;
  stake_acc = 0;
  farming_start = 100;
  farming_end = 200;
}

-- Account 3 has staked before the farming started.
abbrev staked_pool : Contract
staked_pool = record pool {
  vaults = (3, record { previous = 100; staked = min_stake; rewards = 0 }) ∷ [];
}

stakes-locked_example :
    (staked_pool.total_stake ≡ 0)
    × ((m : String) × (close (call 3 1 60) staked_pool ≡ panic m))
    × ((m : String) × (unstake (call 3 1 60) min_stake staked_pool ≡ panic m))
unfolding new round_from_unix mul_u64 fit stake staked_vault get insert current_round
stakes-locked_example =
    stakes-locked 9 6 10 100 200 {c = pool} (call 3 1 60) min_stake refl
      (Reach.next Reach.here (Step.stakes (call 3 min_stake 50) min_stake refl)) (omega arith)
