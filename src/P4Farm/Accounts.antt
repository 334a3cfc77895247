-- ===== src/P4Farm/Accounts.antt =====
-- The totals of the P4 farm (p4-farm-nft/src/lib.rs, vault.rs) against its vaults: the stake units, the
-- NFTs of the contract at one index, and the staked Cheddar.
pub mod Changes
pub mod Fresh
pub mod Exits
pub mod Closing
pub mod Departures
pub mod Arrivals
pub mod Callbacks
use cheddar.Prelude.{
  ℕ, ◌+◌, ◌-◌, ◌/◌, ◌≤◌, ◌<◌, ◌≡◌, ap, Bool, List, none, some, Result, ok, ◌>>=◌, arith, length,
  ◌==◌, Ensures-at, Ensures-bind, if◌then◌else◌, ltb,
}
use cheddar.Prelude.Words.{mul_u128, add_u128, add_u128_inv, checked_sub}
use cheddar.Near.{Env, AccountId, Balance}
use cheddar.Near.LookupMap.{
  get, insert, remove, sum_by, weight, sum_by-insert, sum_by-remove, All, All-insert, All-remove,
  get-insert,
}
use cheddar.P3Lib.{basis_p}
use cheddar.P4Farm.State.{ParseAccount, Vault, Contract}
use cheddar.P4Farm.Identifiers.{is_empty, extract_contract_token_ids, min_stake}
use cheddar.P4Farm.Rewards.{
  ping, ping_all, update_reward_acc, current_round, stake_units, adjust_units, recompute_stake,
  put_vault,
}
use cheddar.P4Farm.Counts.{nfts_at, total_at}

abbrev pub units_of : Vault → Balance
units_of v = v.min_stake

abbrev pub cheddar_of : Vault → Balance
cheddar_of v = v.cheddar_staked

abbrev pub nfts_of : ℕ → Vault → ℕ
nfts_of i v = nfts_at i v.staked

-- What the stake units depend on, besides the vaults.
abbrev pub SameSettings : Contract → Contract → Type 0
SameSettings c d =
    (d.stake_rates ≡ c.stake_rates)
    × (d.cheddy ≡ c.cheddy)
    × (d.nft_boost ≡ c.nft_boost)
    × (d.cheddy_boost ≡ c.cheddy_boost)
    × (d.stake_nft_tokens ≡ c.stake_nft_tokens)

-- All that counts is the same, but for the totals of NFTs.
abbrev pub SameButNfts : Contract → Contract → Type 0
SameButNfts c d =
    (d.vaults ≡ c.vaults)
    × (d.staked_units ≡ c.staked_units)
    × (d.total_cheddar_stake ≡ c.total_cheddar_stake)
    × (length d.total_stake ≡ length c.total_stake)
    × SameSettings c d

abbrev pub SameTotals : Contract → Contract → Type 0
SameTotals c d = (d.total_stake ≡ c.total_stake) × SameButNfts c d

module _ (parse : ParseAccount) where
  -- The units that those settings give a vault.
  abbrev pub rated_units : List ℕ → AccountId → ℕ → ℕ → Vault → Result Balance
  rated_units rates cheddy nft_boost cheddy_boost v = do
    s ← min_stake v.staked rates
    if is_empty v.boost_nft then ok s else do
      (boost_contract, _) ← extract_contract_token_ids parse v.boost_nft
      boosted ← mul_u128 s (if boost_contract == cheddy then cheddy_boost else nft_boost)
      add_u128 s (boosted / basis_p)

  -- The vault is counted with the units that the settings of the farm give it.
  abbrev pub IsRated : Contract → Vault → Type 0
  IsRated c v = rated_units c.stake_rates c.cheddy c.nft_boost c.cheddy_boost v ≡ ok v.min_stake

module _ (parse : ParseAccount) (i : ℕ) where
  -- The totals are those of the vaults; of the Cheddar the farm may count more.
  pub record IsAccounted (c : Contract) : Type 0 where
    pub units : sum_by units_of c.vaults ≡ c.staked_units
    pub nfts : sum_by (nfts_of i) c.vaults ≡ total_at i c.total_stake
    pub cheddar : sum_by cheddar_of c.vaults ≤ c.total_cheddar_stake
    pub rated : All (IsRated parse c) c.vaults
    pub in_range : i < length c.total_stake
    pub one_rate_each : length c.stake_nft_tokens ≡ length c.stake_rates
    pub has_rate : 0 < length c.stake_rates

  -- The totals still count u units, n NFTs and h Cheddar for the account, whatever the map has for it.
  pub record Owes (a : AccountId) (u n h : ℕ) (c : Contract) : Type 0 where
    pub units : sum_by units_of c.vaults + u ≡ c.staked_units + weight units_of (get a c.vaults)
    pub nfts :
        sum_by (nfts_of i) c.vaults + n
        ≡ total_at i c.total_stake + weight (nfts_of i) (get a c.vaults)
    pub cheddar :
        sum_by cheddar_of c.vaults + h ≤ c.total_cheddar_stake + weight cheddar_of (get a c.vaults)
    pub rated : All (IsRated parse c) c.vaults
    pub in_range : i < length c.total_stake
    pub one_rate_each : length c.stake_nft_tokens ≡ length c.stake_rates
    pub has_rate : 0 < length c.stake_rates

  -- The account is counted with what that vault has.
  abbrev pub OwesFor : AccountId → Vault → Contract → Type 0
  OwesFor a v c = Owes a v.min_stake (nfts_at i v.staked) v.cheddar_staked c

  pub kept-IsAccounted : (c d : Contract) → SameTotals c d → IsAccounted c → IsAccounted d
  kept-IsAccounted c d same h =
      ground
        (arith, h.units, h.nfts, h.cheddar, h.rated, h.in_range, h.one_rate_each, h.has_rate, same)

  pub found-OwesFor :
      (a : AccountId) (v : Vault) (c : Contract)
      → IsAccounted c
      → get a c.vaults ≡ some v
      → OwesFor a v c
  found-OwesFor a v c h found =
      ground (arith, h.units, h.nfts, h.cheddar, h.rated, h.in_range, h.one_rate_each, h.has_rate)

  -- A vault that goes back as it is counted.
  pub put-IsAccounted :
      (a : AccountId) (v : Vault) (c : Contract)
      → OwesFor a v c
      → IsRated parse c v
      → IsAccounted (put_vault a v c)
  unfolding put_vault
  put-IsAccounted a v c h rated = ground (
    arith,
    h.units,
    h.nfts,
    h.cheddar,
    h.in_range,
    h.one_rate_each,
    h.has_rate,
    sum_by-insert units_of a v c.vaults,
    sum_by-insert (nfts_of i) a v c.vaults,
    sum_by-insert cheddar_of a v c.vaults,
    All-insert (IsRated parse c) a v c.vaults h.rated rated,
  )

  -- What the map has for the account does not matter to what it is owed.
  pub put-Owes :
      (a : AccountId) (u n x : ℕ) (v : Vault) (c : Contract)
      → Owes a u n x c
      → IsRated parse c v
      → Owes a u n x (put_vault a v c)
  unfolding put_vault
  put-Owes a u n x v c h rated = ground (
    arith,
    h.units,
    h.nfts,
    h.cheddar,
    h.in_range,
    h.one_rate_each,
    h.has_rate,
    get-insert a a v c.vaults,
    sum_by-insert units_of a v c.vaults,
    sum_by-insert (nfts_of i) a v c.vaults,
    sum_by-insert cheddar_of a v c.vaults,
    All-insert (IsRated parse c) a v c.vaults h.rated rated,
  )

  -- An account to which nothing is owed may go.
  pub remove-IsAccounted :
      (a : AccountId) (m : ℕ) (c : Contract)
      → Owes a 0 0 0 c
      → IsAccounted (record c { accounts_registered = m; vaults = remove a c.vaults })
  remove-IsAccounted a m c h = ground (
    arith,
    h.units,
    h.nfts,
    h.cheddar,
    h.in_range,
    h.one_rate_each,
    h.has_rate,
    sum_by-remove units_of a c.vaults,
    sum_by-remove (nfts_of i) a c.vaults,
    sum_by-remove cheddar_of a c.vaults,
    All-remove (IsRated parse c) a c.vaults h.rated,
  )

  pub kept-Owes :
      (a : AccountId) (u n x : ℕ) (c d : Contract)
      → SameTotals c d
      → Owes a u n x c
      → Owes a u n x d
  kept-Owes a u n x c d same h = ground (
    arith,
    h.units,
    h.nfts,
    h.cheddar,
    h.rated,
    h.in_range,
    h.one_rate_each,
    h.has_rate,
    same,
    ap (get a) same.1.0,
  )

  -- The map has what is counted.
  pub settled-IsAccounted :
      (a : AccountId) (v : Vault) (c : Contract)
      → OwesFor a v c
      → get a c.vaults ≡ some v
      → IsAccounted c
  settled-IsAccounted a v c h found =
      ground (arith, h.units, h.nfts, h.cheddar, h.rated, h.in_range, h.one_rate_each, h.has_rate)
