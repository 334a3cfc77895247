-- ===== src/P4Farm/Emission.antt =====
-- What the vaults of the P4 farm (p4-farm-nft/src/vault.rs) are owed against what the rounds emit.
pub mod Crops
pub mod Earnings
pub mod Boosts
pub mod Others
pub mod Closing
pub mod Exits
pub mod Sends
pub mod History
pub mod Steps
pub mod Settled
mod Tests
use cheddar.Prelude.{
  ℕ, zero, suc, ◌+◌, ◌-◌, ◌*◌, ◌/◌, ◌≤◌, ◌<◌, ◌≡◌, refl, Bool, true, false, List, [], ◌∷◌, Option,
  none, some, inl, inr, ◌⊎◌, Result, ok, arith,
}
use cheddar.Prelude.Words.{checked_sub, mul_u128, add_u128, checked_div, fit, u128_limit}
use cheddar.Near.{Env, AccountId, Balance}
use cheddar.Near.LookupMap.{LookupMap, get, insert, sum_by, weight, sum_by-insert}
use cheddar.P3Lib.{acc_overflow}
use cheddar.P4Farm.State.{Vault, Contract}
use cheddar.P4Farm.Rewards.{ping, compute_reward_acc, update_reward_acc, current_round, ping_all}
use cheddar.P3Farm.Emission.{product_mono, product-sum, quotient-le}
use cheddar.P4Farm.Accounts.{units_of}

-- What a vault has farmed by then, scaled, with what it has not been paid yet.
unfoldable pub owed : ℕ → Vault → ℕ
owed acc v = v.farmed * acc_overflow + v.min_stake * (acc - v.reward_acc)

-- The farmed units of all vaults, scaled.
abbrev pub owed_all : Contract → ℕ
owed_all c = sum_by (owed c.reward_acc) c.vaults

owed-later :
    (acc acc' : ℕ) (v : Vault) → acc ≤ acc' → owed acc' v ≤ owed acc v + v.min_stake * (acc' - acc)
unfolding owed
owed-later acc acc' v h = ground (
  arith,
  product_mono v.min_stake (acc' - v.reward_acc) ((acc - v.reward_acc) + (acc' - acc)),
  product-sum v.min_stake (acc - v.reward_acc) (acc' - acc),
)

-- When the accumulator grows, the vaults are owed at most their units' share more.
pub owed_all-later :
    (acc acc' : ℕ) (m : LookupMap Vault)
    → acc ≤ acc'
    → sum_by (owed acc') m ≤ sum_by (owed acc) m + sum_by units_of m * (acc' - acc)
unfolding sum_by
owed_all-later acc acc' [] h = ground arith
owed_all-later acc acc' (e ∷ m) h = ground (
  arith,
  owed-later acc acc' e.1 h,
  owed_all-later acc acc' m h,
  product-sum (acc' - acc) (units_of e.1) (sum_by units_of m),
)

-- The accumulator grows by no more than the rounds since the last update emit for the staked units.
pub compute_reward_acc-le :
    (r : ℕ) (c : Contract) {acc : ℕ}
    → compute_reward_acc r c ≡ ok acc
    → (c.reward_acc ≤ acc)
      × (c.staked_units * (acc - c.reward_acc)
          ≤ (r - c.reward_acc_round) * c.farm_unit_emission * acc_overflow)
unfolding compute_reward_acc checked_sub mul_u128 add_u128 checked_div fit
compute_reward_acc-le r c {acc} e = ground (
  arith,
  quotient-le ((r - c.reward_acc_round) * c.farm_unit_emission * acc_overflow) c.staked_units,
)

-- The farming has started, or nothing was emitted yet.
abbrev pub IsStarted : ℕ → ℕ → Type 0
IsStarted r acc = (0 < r) ⊎ (acc ≡ 0)

pub IsStarted-later :
    (r : ℕ) (c : Contract) {acc : ℕ}
    → compute_reward_acc r c ≡ ok acc
    → IsStarted r c.reward_acc
    → IsStarted r acc
unfolding compute_reward_acc checked_sub
IsStarted-later r c {acc} e h = ground arith

-- A ping pays no more than is owed, and less than one farmed unit less.
pub ping-owed :
    (v : Vault) (acc r : ℕ) {v' : Vault}
    → ping v acc r ≡ ok v'
    → IsStarted r acc
    → (owed acc v' ≤ owed acc v) × (owed acc v < owed acc v' + acc_overflow) × (acc ≤ v'.reward_acc)
unfolding ping owed checked_sub mul_u128 add_u128 fit
ping-owed v acc r {v'} e h =
    ground (arith, quotient-le (v.min_stake * (acc - v.reward_acc)) acc_overflow)

-- What the rounds since the last update emit, scaled.
abbrev pub emitted : ℕ → Contract → ℕ
emitted r c = (r - c.reward_acc_round) * c.farm_unit_emission * acc_overflow

pub ping_all-parts :
    (env : Env) (v : Vault) (c : Contract) (r : ℕ) {v' : Vault} {c' : Contract}
    → ping_all env v c ≡ ok (v', c')
    → current_round env c ≡ ok r
    → (compute_reward_acc r c ≡ ok c'.reward_acc) × (ping v c'.reward_acc r ≡ ok v')
unfolding ping_all update_reward_acc
ping_all-parts env v c r {v'} {c'} e now = ground (arith, now)

put_vault-owed :
    (acc : ℕ) (v v' w : Vault) (paid : Balance)
    → (owed acc v' ≤ owed acc v) × (owed acc v < owed acc v' + acc_overflow) × (acc ≤ v'.reward_acc)
    → w.reward_acc ≡ v'.reward_acc
    → w.farmed + paid ≡ v'.farmed
    → owed acc w + paid * acc_overflow ≤ owed acc v
unfolding owed
put_vault-owed acc v v' w paid h same left = ground (arith, h, same, left)

-- A vault with no more farmed units than the ping has left it, after the units paid from it, goes back.
pub put_pinged-owed :
    (env : Env) (a : AccountId) (v : Vault) (c : Contract) (r : ℕ) {v' : Vault} {c' : Contract}
    (w : Vault) (paid : Balance)
    → sum_by units_of c.vaults ≡ c.staked_units
    → get a c.vaults ≡ some v
    → ping_all env v c ≡ ok (v', c')
    → current_round env c ≡ ok r
    → IsStarted r c.reward_acc
    → w.reward_acc ≡ v'.reward_acc
    → w.farmed + paid ≡ v'.farmed
    → sum_by (owed c'.reward_acc) (insert a w c.vaults) + paid * acc_overflow
      ≤ owed_all c + emitted r c
put_pinged-owed env a v c r {v'} {c'} w paid counted found e now started same left =
    let (computed, pinged) = ping_all-parts env v c r e now in
    let (grows, share) = compute_reward_acc-le r c computed in
    let later = owed_all-later c.reward_acc c'.reward_acc c.vaults grows in
    let vault_le =
      put_vault-owed c'.reward_acc v v' w paid
        (ping-owed v c'.reward_acc r pinged (IsStarted-later r c computed started)) same left in
    ground (
      arith,
      counted,
      found,
      share,
      later,
      vault_le,
      sum_by-insert (owed c'.reward_acc) a w c.vaults,
    )
