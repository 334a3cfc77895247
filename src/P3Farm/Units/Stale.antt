-- ===== src/P3Farm/Units/Stale.antt =====
-- The stake units when the rates have changed since a vault was counted.
use cheddar.Prelude.{
  ◌+◌, ◌≡◌, true, false, List, some, ok, arith, Ensures, Ensures-intro, Ensures-bind, ap,
}
use cheddar.Prelude.Words.{checked_sub, checked_sub_inv}
use cheddar.Near.{Env, AccountId, Balance}
use cheddar.Near.LookupMap.{get, sum_by-remove}
use cheddar.P3Lib.{check_all_zeros}
use cheddar.P3Farm.State.{Vault, Contract, Promise, is_empty}
use cheddar.P3Farm.Rewards.{get_vault, ping_all, min_stake, is_empty_vault}
use cheddar.P3Farm.Staking.{return_nft, pay_out, close, assert_is_active, assert_one_yocto}
use cheddar.P3Farm.Units.{units_of, units, ping_all_inv}
use cheddar.P3Farm.Units.Exits.{send_crop-SameUnits, return_staked_from-SameUnits}
use cheddar.P3Farm.Units.Calls.{get_vault_inv}

-- The units that a closed vault takes with it, and those taken off the farm.
abbrev pub TakenOff : Balance → Vault → Contract → Contract × List Promise → Type 0
TakenOff s v c r = (units r.0 + v.min_stake ≡ units c) × (r.0.staked_units + s ≡ c.staked_units)

pay_out-TakenOff :
    (env : Env) (a : AccountId) (v w : Vault) (s : Balance) (c d : Contract)
    → is_empty w.cheddy ≡ true
    → check_all_zeros w.staked ≡ false
    → min_stake w.staked d.stake_rates ≡ ok s
    → units d + v.min_stake ≡ units c
    → d.staked_units ≡ c.staked_units
    → Ensures (TakenOff s v c) (pay_out env a w d)
unfolding pay_out return_nft is_empty_vault
pay_out-TakenOff env a v w s c d no_cheddy staked e left same =
    Ensures-intro (TakenOff s v c) _
      λ r done. grind (arith, send_crop-SameUnits, return_staked_from-SameUnits, checked_sub_inv)

-- Closing a vault that has tokens and no Cheddy, if it does not panic, takes off the farm's units the ones that the current rates
-- give the vault, whereas the sum over the vaults loses those that the vault was counted with.
pub close-stale :
    (env : Env) (v : Vault) (s : Balance) (c : Contract)
    → get env.predecessor_account_id c.vaults ≡ some v
    → is_empty v.cheddy ≡ true
    → check_all_zeros v.staked ≡ false
    → min_stake v.staked c.stake_rates ≡ ok s
    → Ensures (TakenOff s v c) (close env c)
unfolding close
close-stale env v s c found no_cheddy staked e =
    let a = env.predecessor_account_id in
    Ensures-bind (TakenOff s v c) (assert_is_active c) _ λ _ _.
      Ensures-bind (TakenOff s v c) (assert_one_yocto env) _ λ _ _.
        Ensures-bind (TakenOff s v c) (get_vault c a) _ λ u found_u.
          Ensures-bind (TakenOff s v c) (ping_all env u c) _ λ (v1, c1) pinged.
            Ensures-bind (TakenOff s v c) (checked_sub c1.accounts_registered 1) _ λ n _.
              let same : u ≡ v = ground (arith, found, get_vault_inv a c found_u) in
              let ping = ping_all_inv env u c pinged in
              let removed = sum_by-remove units_of a c1.vaults in
              pay_out-TakenOff env a v v1 s c _ (ground (arith, same, ping, no_cheddy))
                (ground (arith, same, ping, staked, ap check_all_zeros (ping.1)))
                (ground (arith, same, ping, e))
                (ground (arith, same, ping, removed, found, get_vault_inv a c found_u))
                (ground (arith, ping))
