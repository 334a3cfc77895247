-- ===== src/P3Farm/State.antt =====
-- The state of the P3 farm (p3-farm/src/lib.rs, vault.rs) and what its calls ask of the chain.
use Prim.Native.String.{String}
use cheddar.Prelude.{ℕ, Bool, true, false, List, replicate}
use cheddar.Near.{AccountId, Balance}
use cheddar.Near.LookupMap.{LookupMap}

pub record Vault : Type 0 where
  pub reward_acc : Balance
  pub staked : List Balance
  pub min_stake : Balance
  pub farmed : Balance
  pub farmed_recovered : List Balance
  -- the identifier of the deposited Cheddy, empty if there is none
  pub cheddy : String

pub record Contract : Type 0 where
  pub is_active : Bool
  pub setup_finalized : Bool
  pub owner_id : AccountId
  pub treasury : AccountId
  pub vaults : LookupMap Vault
  pub stake_tokens : List AccountId
  pub staked_units : Balance
  pub stake_rates : List ℕ
  pub farm_tokens : List AccountId
  pub farm_token_rates : List ℕ
  pub farm_unit_emission : ℕ
  pub farm_deposits : List ℕ
  pub farming_start : ℕ
  pub farming_end : ℕ
  pub cheddar_nft : AccountId
  pub cheddar_nft_boost : ℕ
  pub total_harvested : List Balance
  pub reward_acc : ℕ
  pub reward_acc_round : ℕ
  pub total_stake : List Balance
  pub accounts_registered : ℕ
  pub fee_rate : ℕ
  pub fee_collected : List Balance

-- The callback of a promise: transfer_staked_callback, transfer_farmed_callback,
-- withdraw_nft_callback and withdraw_fees_callback, with their arguments.
pub data Callback : Type 0 where
  no_callback : Callback
  staked_sent : AccountId → ℕ → (amount fee : Balance) → Callback
  farmed_sent : AccountId → ℕ → Balance → Callback
  nft_sent : AccountId → String → Callback
  fees_sent : ℕ → Balance → Callback

-- What a call asks the chain to do after it: NEAR, a token or an NFT sent to an account.
pub data Promise : Type 0 where
  transfer : AccountId → Balance → Promise
  ft_transfer : (token receiver : AccountId) → Balance → Callback → Promise
  nft_transfer : (nft receiver : AccountId) → String → Callback → Promise

-- `String::is_empty`
unfoldable pub is_empty : String → Bool
is_empty String.[] = true
is_empty (String.◌∷◌ c s) = false

-- `Vault::new`
unfoldable pub fresh_vault : ℕ → ℕ → Balance → Vault
fresh_vault staked_len farmed_len reward_acc = record {
  reward_acc = reward_acc;
  staked = replicate staked_len 0;
  min_stake = 0;
  farmed = 0;
  farmed_recovered = replicate farmed_len 0;
  cheddy = "";
}
