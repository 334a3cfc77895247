-- ===== src/P3Farm/Units.antt =====
-- The stake units of the vaults and of the farm.
pub mod Calls
pub mod Zeros
pub mod Exits
pub mod Stale
pub mod Withdrawals
use cheddar.Prelude.{
  ℕ, zero, suc, ◌+◌, ◌-◌, ◌/◌, ◌≤◌, ◌<◌, length, ◌≡◌, Bool, true, false, List, [], ◌∷◌, Option,
  none, some, Result, ok, arith, Option-cases, inl, inr, Result-cases, ◌>>=◌, if◌then◌else◌, ltb,
  Ensures, Ensures-intro,
}
use cheddar.Prelude.Words.{checked_sub, mul_u128, add_u128, add_u128_inv, checked_sub_inv}
use cheddar.Near.{Env, AccountId, Balance}
use cheddar.Near.LookupMap.{
  LookupMap, get, insert, remove, sum_by, weight, get-insert, sum_by-insert, sum_by-remove,
  weight-le, All, All-get, All-insert, All-remove,
}
use cheddar.P3Lib.{basis_p}
use cheddar.P3Farm.State.{Vault, Contract, is_empty}
use cheddar.P3Farm.Rewards.{
  ping, ping_all, update_reward_acc, compute_reward_acc, current_round, min_stake, stake_units,
  adjust_units, recompute_stake, put_vault,
}

abbrev pub units_of : Vault → Balance
units_of v = v.min_stake

-- The units of all vaults.
abbrev pub units : Contract → ℕ
units c = sum_by units_of c.vaults

-- The units that those rates and that boost give a vault.
abbrev pub rated_units : List ℕ → ℕ → Vault → Result Balance
rated_units rates boost v = do
  s ← min_stake v.staked rates
  if is_empty v.cheddy then ok s else do boosted ← mul_u128 s boost; add_u128 s (boosted / basis_p)

-- The vault was counted with the rates and the boost.
abbrev pub IsRated : List ℕ → ℕ → Vault → Type 0
IsRated rates boost v = rated_units rates boost v ≡ ok v.min_stake

-- The units of the farm are those of its vaults, each counted with the current rates.
pub record IsCounted (c : Contract) : Type 0 where
  pub counted : units c ≡ c.staked_units
  pub rated : All (IsRated c.stake_rates c.cheddar_nft_boost) c.vaults
  pub one_rate_each : length c.stake_tokens ≡ length c.stake_rates
  pub has_rate : 0 < length c.stake_rates

-- What the units depend on, besides the vaults.
abbrev pub SameSettings : Contract → Contract → Type 0
SameSettings c c' =
    (c'.stake_rates ≡ c.stake_rates)
    × (c'.cheddar_nft_boost ≡ c.cheddar_nft_boost)
    × (c'.stake_tokens ≡ c.stake_tokens)

-- Nothing that counts has changed.
abbrev pub SameUnits : Contract → Contract → Type 0
SameUnits c c' = (c'.vaults ≡ c.vaults) × (c'.staked_units ≡ c.staked_units) × SameSettings c c'

pub ping_inv :
    (v : Vault) (acc round : ℕ) {v' : Vault}
    → ping v acc round ≡ ok v'
    → (v'.min_stake ≡ v.min_stake) × (v'.staked ≡ v.staked) × (v'.cheddy ≡ v.cheddy)
unfolding ping
ping_inv v acc round {v'} e = ground arith

pub update_reward_acc_inv :
    (round : ℕ) (c : Contract) {c' : Contract} → update_reward_acc round c ≡ ok c' → SameUnits c c'
unfolding update_reward_acc
update_reward_acc_inv round c {c'} e = ground arith

-- A ping changes the accumulators and the farmed units only.
pub ping_all_inv :
    (env : Env) (v : Vault) (c : Contract) {v' : Vault} {c' : Contract}
    → ping_all env v c ≡ ok (v', c')
    → (v'.min_stake ≡ v.min_stake)
      × (v'.staked ≡ v.staked)
      × (v'.cheddy ≡ v.cheddy)
      × SameUnits c c'
unfolding ping_all
ping_all_inv env v c {v'} {c'} e = grind (arith, ping_inv, update_reward_acc_inv)

pub recompute_stake_inv :
    (v : Vault) (c : Contract) {v' : Vault} {c' : Contract}
    → recompute_stake v c ≡ ok (v', c')
    → (v'.staked ≡ v.staked)
      × (v'.cheddy ≡ v.cheddy)
      × (c'.vaults ≡ c.vaults)
      × (c'.staked_units + v.min_stake ≡ c.staked_units + v'.min_stake)
      × SameSettings c c'
unfolding recompute_stake adjust_units checked_sub
recompute_stake_inv v c {v'} {c'} e = grind (arith, add_u128_inv)

pub recompute_stake-IsRated :
    (v : Vault) (c : Contract) {v' : Vault} {c' : Contract}
    → recompute_stake v c ≡ ok (v', c')
    → IsRated c.stake_rates c.cheddar_nft_boost v'
unfolding recompute_stake stake_units adjust_units
recompute_stake-IsRated v c {v'} {c'} e = ground arith
