-- ===== src/P1Dyn/Tests.antt =====
-- The dynamic P1 pool on small states, and each of its theorems at an input that meets its hypotheses.
use cheddar.Prelude.{ℕ, ◌*◌, ◌≡◌, refl, true, [], ◌∷◌, Ensures}
use cheddar.Prelude.Words.{mul_u64, fit, add_u128, mul_u256, as_u128, checked_sub}
use cheddar.Near.{Env, AccountId, Balance}
use cheddar.Near.LookupMap.{get, insert}
use cheddar.P3Lib.{e24}
use cheddar.P1Dyn.State.{Vault, Contract}
use cheddar.P1Dyn.Rewards.{
  current_round, round_from_unix, get_vault_or_default, is_empty, save_vault, ping, ping_at,
  unpaid_from, farmed_in,
}
use cheddar.P1Dyn.Methods.{new, stake, staked_vault, close}
use cheddar.P1Dyn.History.{Step, Reach, all_stakes, total_stake-eq-sum}
use cheddar.P1Dyn.Recoveries.{ClosedWith, close-ClosedWith}

abbrev call : AccountId → Balance → ℕ → Env
call who deposit now = record {
  predecessor_account_id = who;
  signer_account_id = who;
  attached_deposit = deposit;
  block_timestamp = now * 1_000_000_000;
  storage_byte_cost = 0;
  prepaid_gas = 0;
  promise_results = [];
}

abbrev pool : Contract
pool = record {
  owner_id = 9;
  cheddar_id = 6;
  is_active = true;
  vaults = [];
  rate = 10;
  total_stake = 0;
  farming_start = 100;
  farming_end = 200;
  total_rewards = 0;
}

-- Account 3 has staked two NEAR before the farming started.
abbrev vault : Vault
vault = record { previous = 100; staked = 2 * e24; rewards = 0 }

abbrev staked_pool : Contract
staked_pool = record pool { vaults = (3, vault) ∷ []; total_stake = 2 * e24 }

total_stake-eq-sum_example : all_stakes staked_pool ≡ 2 * e24
unfolding new round_from_unix mul_u64 fit stake staked_vault get insert current_round
    get_vault_or_default is_empty save_vault add_u128
total_stake-eq-sum_example =
    total_stake-eq-sum 9 6 10 100 200 {c = pool} {c' = staked_pool} refl
      (Reach.next Reach.here (Step.stakes (call 3 (2 * e24) 50) (2 * e24) refl))

-- Thirty seconds of the farming have passed.
close-ClosedWith_example :
    Ensures
      (ClosedWith 3 (record vault { previous = 130; rewards = 600 }) staked_pool)
      (close (call 3 1 130) staked_pool)
unfolding get ping is_empty current_round ping_at unpaid_from farmed_in checked_sub mul_u256 as_u128
    add_u128 fit
close-ClosedWith_example =
    close-ClosedWith (call 3 1 130) vault staked_pool
      (record vault { previous = 130; rewards = 600 }) 600 (refl, tt) refl refl
