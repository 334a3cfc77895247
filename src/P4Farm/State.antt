-- ===== src/P4Farm/State.antt =====
-- The state of the P4 farm (p4-farm-nft/src/lib.rs, vault.rs) and what its calls ask of the chain.
use cheddar.Prelude.{ℕ, Bool, Option, String, List, [], replicate}
use cheddar.Near.{AccountId, Balance}
use cheddar.Near.LookupMap.{LookupMap}

abbrev pub TokenId : Type 0
TokenId = String

-- `AccountId::from_str` of near_sdk, on the text of an identifier.
abbrev pub ParseAccount : Type 0
ParseAccount = String → Option AccountId

pub record Vault : Type 0 where
  pub reward_acc : Balance
  -- the staked NFTs of each contract
  pub staked : List (List TokenId)
  pub min_stake : Balance
  pub farmed : Balance
  pub farmed_recovered : List Balance
  -- `contract_id@token_id` of the boost NFT, empty if there is none
  pub boost_nft : String
  pub cheddar_staked : Balance

pub record Contract : Type 0 where
  pub is_active : Bool
  pub setup_finalized : Bool
  pub owner_id : AccountId
  pub treasury : AccountId
  pub vaults : LookupMap Vault
  pub stake_nft_tokens : List AccountId
  pub staked_units : Balance
  pub stake_rates : List ℕ
  pub farm_tokens : List AccountId
  pub farm_token_rates : List ℕ
  pub farm_unit_emission : ℕ
  pub farm_deposits : List ℕ
  pub farming_start : ℕ
  pub farming_end : ℕ
  pub boost_nft_contracts : List AccountId
  pub cheddy : AccountId
  pub total_boost : List Balance
  pub nft_boost : ℕ
  pub cheddy_boost : ℕ
  pub total_harvested : List Balance
  pub reward_acc : ℕ
  pub reward_acc_round : ℕ
  pub total_stake : List Balance
  pub total_cheddar_stake : Balance
  pub accounts_registered : ℕ
  pub cheddar_rate : Balance
  pub cheddar : AccountId

-- The callback of a promise: transfer_staked_callback, transfer_farmed_callback,
-- transfer_staked_cheddar_callback and withdraw_boost_nft_callback, with their arguments.
pub data Callback : Type 0 where
  staked_sent : AccountId → ℕ → TokenId → Callback
  farmed_sent : AccountId → ℕ → Balance → Callback
  cheddar_sent : AccountId → Balance → Callback
  boost_sent : AccountId → String → ℕ → Callback

-- What a call asks the chain to do after it: NEAR, a token or an NFT sent to an account.
pub data Promise : Type 0 where
  transfer : AccountId → Balance → Promise
  ft_transfer : (token receiver : AccountId) → Balance → Callback → Promise
  nft_transfer : (nft receiver : AccountId) → TokenId → Callback → Promise

-- `Vault::new`
unfoldable pub fresh_vault : ℕ → ℕ → Balance → Vault
fresh_vault staked_len farmed_len reward_acc = record {
  reward_acc = reward_acc;
  staked = replicate staked_len [];
  min_stake = 0;
  farmed = 0;
  farmed_recovered = replicate farmed_len 0;
  boost_nft = "";
  cheddar_staked = 0;
}
