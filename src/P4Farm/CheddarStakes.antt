-- ===== src/P4Farm/CheddarStakes.antt =====
-- Staking Cheddar on the P4 farm (p4-farm-nft/src/lib.rs, token_standards.rs).
use cheddar.Prelude.{◌+◌, ◌<◌, ◌≡◌, true, some, ok, panic, arith, if◌then◌else◌, leb}
use cheddar.Prelude.Words.{u128_limit, add_u128, fit}
use cheddar.Near.{Env, AccountId, Balance}
use cheddar.Near.LookupMap.{get, insert}
use cheddar.P4Farm.State.{Vault, Contract}
use cheddar.P4Farm.Rewards.{get_vault, put_vault}
use cheddar.P4Farm.Staking.{assert_is_active, stake_cheddar}
use cheddar.P4Farm.Methods.{ft_on_transfer, cheddar_stake}

-- The vault has the amount more, and the total the full rate.
abbrev pub with_cheddar : AccountId → Balance → Vault → Contract → Contract
with_cheddar a x v c = record c {
  vaults = insert a (record v { cheddar_staked = v.cheddar_staked + x }) c.vaults;
  total_cheddar_stake = c.total_cheddar_stake + c.cheddar_rate;
}

-- On an active farm, with amounts that fit, whichever token contract makes the call: a positive
-- amount with the message "cheddar stake" for a registered user is accepted whole if it is at most
-- the rate, then the vault has that amount more and total_cheddar_stake the full rate; a larger one
-- panics.
pub ft_on_transfer-any_token :
    (env : Env) (a : AccountId) (x : Balance) (v : Vault) (c : Contract)
    → c.setup_finalized ≡ true
    → c.is_active ≡ true
    → get a c.vaults ≡ some v
    → 0 < x
    → v.cheddar_staked + x < u128_limit
    → c.total_cheddar_stake + c.cheddar_rate < u128_limit
    → ft_on_transfer env a x cheddar_stake c ≡ (
        if leb x c.cheddar_rate
        then ok (with_cheddar a x v c, 0)
        else panic "User need at least {} to stake one more token. Got {}")
unfolding ft_on_transfer stake_cheddar assert_is_active get_vault put_vault add_u128 fit
ft_on_transfer-any_token env a x v c final active found positive fits_vault fits_total =
    ground arith
