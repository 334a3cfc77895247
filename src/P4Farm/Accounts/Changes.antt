-- ===== src/P4Farm/Accounts/Changes.antt =====
-- What a ping and a new count of the units do to the totals of the P4 farm (p4-farm-nft/src/vault.rs).
use cheddar.Prelude.{ℕ, ◌+◌, ◌-◌, ◌≤◌, ◌≡◌, ap, ok, arith, Ensures-at, Ensures-bind}
use cheddar.Prelude.Words.{add_u128_inv, checked_sub}
use cheddar.Near.{Env, AccountId}
use cheddar.Near.LookupMap.{get}
use cheddar.P4Farm.State.{ParseAccount, Vault, Contract}
use cheddar.P4Farm.Rewards.{
  ping, ping_all, update_reward_acc, current_round, stake_units, adjust_units, recompute_stake,
  put_vault,
}
use cheddar.P4Farm.Counts.{nfts_at}
use cheddar.P4Farm.Accounts.{
  SameSettings, SameTotals, IsRated, IsAccounted, Owes, OwesFor, kept-Owes, put-IsAccounted,
}

pub ping_inv :
    (v : Vault) (acc round : ℕ) {v' : Vault}
    → ping v acc round ≡ ok v'
    → (v'.min_stake ≡ v.min_stake)
      × (v'.staked ≡ v.staked)
      × (v'.boost_nft ≡ v.boost_nft)
      × (v'.cheddar_staked ≡ v.cheddar_staked)
      × (v'.farmed_recovered ≡ v.farmed_recovered)
unfolding ping
ping_inv v acc round {v'} e = ground arith

pub update_reward_acc_inv :
    (round : ℕ) (c : Contract) {c' : Contract} → update_reward_acc round c ≡ ok c' → SameTotals c c'
unfolding update_reward_acc
update_reward_acc_inv round c {c'} e = ground arith

-- A ping changes the accumulators and the farmed units only.
abbrev pub Pinged : Vault → Contract → Vault × Contract → Type 0
Pinged v c r =
    (r.0.min_stake ≡ v.min_stake)
    × (r.0.staked ≡ v.staked)
    × (r.0.boost_nft ≡ v.boost_nft)
    × (r.0.cheddar_staked ≡ v.cheddar_staked)
    × (r.0.farmed_recovered ≡ v.farmed_recovered)
    × SameTotals c r.1

pub ping_all_inv :
    (env : Env) (v : Vault) (c : Contract) {v' : Vault} {c' : Contract}
    → ping_all env v c ≡ ok (v', c')
    → Pinged v c (v', c')
unfolding ping_all
ping_all_inv env v c {v'} {c'} e =
    Ensures-at (Pinged v c) _
      (Ensures-bind (Pinged v c) (current_round env c) _ λ r _.
        Ensures-bind (Pinged v c) (update_reward_acc r c) _ λ c1 updated.
          Ensures-bind (Pinged v c) (ping v c1.reward_acc r) _ λ v1 pinged.
            ground (arith, update_reward_acc_inv r c updated, ping_inv v c1.reward_acc r pinged))
      e

-- The farm's units follow those of the vault.
pub recompute_stake_inv :
    (parse : ParseAccount) (v : Vault) (c : Contract) {v' : Vault} {c' : Contract}
    → recompute_stake parse v c ≡ ok (v', c')
    → (v'.staked ≡ v.staked)
      × (v'.boost_nft ≡ v.boost_nft)
      × (v'.cheddar_staked ≡ v.cheddar_staked)
      × (v'.farmed_recovered ≡ v.farmed_recovered)
      × (c'.vaults ≡ c.vaults)
      × (c'.staked_units + v.min_stake ≡ c.staked_units + v'.min_stake)
      × (c'.total_cheddar_stake ≡ c.total_cheddar_stake)
      × (c'.total_stake ≡ c.total_stake)
      × (c'.total_boost ≡ c.total_boost)
      × SameSettings c c'
unfolding recompute_stake adjust_units checked_sub
recompute_stake_inv parse v c {v'} {c'} e = grind (arith, add_u128_inv)

pub recompute_stake-IsRated :
    (parse : ParseAccount) (v : Vault) (c : Contract) {v' : Vault} {c' : Contract}
    → recompute_stake parse v c ≡ ok (v', c')
    → IsRated parse c' v'
unfolding recompute_stake stake_units adjust_units
recompute_stake-IsRated parse v c {v'} {c'} e = ground arith

module _ (parse : ParseAccount) (i : ℕ) where
  pub pinged-OwesFor :
      (env : Env) (a : AccountId) (v : Vault) (c : Contract) {v' : Vault} {c' : Contract}
      → ping_all env v c ≡ ok (v', c')
      → OwesFor parse i a v c
      → OwesFor parse i a v' c'
  pinged-OwesFor env a v c {v'} {c'} e h =
      let same = ping_all_inv env v c e in
      ground (arith, same, kept-Owes parse i a _ _ _ c c' same.5 h)

  -- The vault is counted with its new units, less those that were taken off before.
  pub recomputed-Owes :
      (a : AccountId) (k n x : ℕ) (v : Vault) (c : Contract) {v' : Vault} {c' : Contract}
      → recompute_stake parse v c ≡ ok (v', c')
      → k ≤ v.min_stake
      → k ≤ v'.min_stake
      → Owes parse i a (v.min_stake - k) n x c
      → Owes parse i a (v'.min_stake - k) n x c'
  recomputed-Owes a k n x v c {v'} {c'} e before after h =
      let moved = recompute_stake_inv parse v c e in
      ground (
        arith,
        h.units,
        h.nfts,
        h.cheddar,
        h.rated,
        h.in_range,
        h.one_rate_each,
        h.has_rate,
        moved,
        ap (get a) moved.4,
      )

  -- A vault that goes back with new units leaves the totals right.
  pub put_recomputed-IsAccounted :
      (a : AccountId) (v : Vault) (c : Contract) {v' : Vault} {c' : Contract}
      → recompute_stake parse v c ≡ ok (v', c')
      → OwesFor parse i a v c
      → IsAccounted parse i (put_vault a v' c')
  put_recomputed-IsAccounted a v c {v'} {c'} e h =
      put-IsAccounted parse i a v' c'
        (ground (
          arith,
          recompute_stake_inv parse v c e,
          recomputed-Owes a 0 (nfts_at i v.staked) v.cheddar_staked v c e (omega arith)
              (omega arith) (ground (arith, h)),
        ))
        (recompute_stake-IsRated parse v c e)
