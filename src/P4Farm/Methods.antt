-- ===== src/P4Farm/Methods.antt =====
-- The other calls of the P4 farm: token and NFT receivers, storage and views
-- (p4-farm-nft/src/token_standards.rs, storage_management.rs, lib.rs).
use cheddar.Prelude.{
  ℕ, ◌-◌, Bool, true, false, String, List, [], ◌∷◌, Option, none, some, get_or, Result, ok, ◌>>=◌,
  ◌>>◌, assert, ltb, leb, ◌!=◌, ◌==◌, if◌then◌else◌,
}
use cheddar.Prelude.Words.{mul_u64, add_u64}
use cheddar.Near.{Env, AccountId, Balance}
use cheddar.Near.LookupMap.{get, contains_key}
use cheddar.P3Lib.{round, storage_cost, safe_mul}
use cheddar.P4Farm.State.{TokenId, ParseAccount, Vault, Contract, Promise, transfer}
use cheddar.P4Farm.Rewards.{ping, current_round, compute_reward_acc, put_vault, new_vault}
use cheddar.P4Farm.Staking.{
  assert_is_active, assert_one_yocto, stake_cheddar, nft_stake, boost_stake, close,
}
use cheddar.P4Farm.Setup.{setup_deposit}

-- The messages "to farm" and "to boost", and any other.
pub data TransferInstruction : Type 0 where
  to_farm to_boost unknown : TransferInstruction

-- The messages "setup reward deposit" and "cheddar stake", and any other.
pub data DepositMsg : Type 0 where
  setup_reward_deposit cheddar_stake : DepositMsg
  other_msg : String → DepositMsg

-- The second part of the answer is the amount that the token contract gives back.
unfoldable pub ft_on_transfer :
    Env → AccountId → Balance → DepositMsg → Contract → Result (Contract × Balance)
unfolding stake_cheddar setup_deposit
ft_on_transfer env sender_id amount msg c = do
  let ft_token_id = env.predecessor_account_id
  assert (ltb 0 amount) "deposited amount must be positive"
  elim msg [
    | setup_reward_deposit ↦ do c' ← setup_deposit ft_token_id amount c; ok (c', 0)
    | cheddar_stake ↦ do c' ← stake_cheddar sender_id amount c; ok (c', 0)
    | other_msg _ ↦ ok (c, amount)
  ]

module _ (parse : ParseAccount) where
  -- The second part of the answer tells the NFT contract to give the NFT back.
  unfoldable pub nft_on_transfer :
      Env → AccountId → TokenId → TransferInstruction → Contract → Result (Contract × Bool)
  unfolding assert_is_active boost_stake nft_stake
  nft_on_transfer env previous_owner_id token_id msg c = do
    let nft_contract_id = env.predecessor_account_id
    assert (nft_contract_id != env.signer_account_id) "ERR_NOT_CROSS_CONTRACT_CALL"
    assert (previous_owner_id == env.signer_account_id) "ERR_OWNER_NOT_SIGNER"
    elim msg [
      | to_boost ↦ do
        assert_is_active c
        (c', _) ← boost_stake parse env previous_owner_id nft_contract_id token_id c
        ok (c', true)
      | to_farm ↦ do
        assert_is_active c
        (c', _) ← nft_stake parse env previous_owner_id nft_contract_id token_id c
        ok (c', true)
      | unknown ↦ ok (c, true)
    ]

  unfoldable pub storage_unregister :
      Env → Option Bool → Contract → Result (Contract × Bool × List Promise)
  unfolding assert_one_yocto close
  storage_unregister env force c = do
    assert_one_yocto env
    if get_or force false
        then (close parse env c >>= λ (c', ps). ok (c', true, ps))
        else ok (c, false, [])

unfoldable pub create_account : AccountId → Contract → Result Contract
unfolding put_vault new_vault
create_account user c = do
  n ← add_u64 c.accounts_registered 1
  ok (record (put_vault user (new_vault c) c) { accounts_registered = n })

-- NEAR that goes back to the caller, if there is any.
unfoldable pub send_back : AccountId → Balance → List Promise
send_back account amount = if ltb 0 amount then transfer account amount ∷ [] else []

unfoldable pub storage_deposit :
    Env → Option AccountId → Contract → Result (Contract × List Promise)
unfolding create_account send_back
storage_deposit env account_id c = do
  let amount = env.attached_deposit
  let account = get_or account_id env.predecessor_account_id
  if contains_key account c.vaults then ok (c, send_back env.predecessor_account_id amount) else (do
    assert (leb storage_cost amount)
        "The attached deposit is less than the minimum storage balance ({})"
    c' ← create_account account c
    ok (c', send_back env.predecessor_account_id (amount - storage_cost)))

-- The balance of a registered account, all of it in use.
unfoldable pub storage_balance_of : AccountId → Contract → Option (Balance × Balance)
storage_balance_of account_id c =
    if contains_key account_id c.vaults then some (storage_cost, 0) else none

-- What `status` reports of a vault (P4Status).
pub record Status : Type 0 where
  pub stake_tokens : List (List TokenId)
  pub stake : Balance
  pub farmed_units : Balance
  pub farmed_tokens : List Balance
  pub boost_nfts : String
  pub timestamp : ℕ
  pub total_cheddar_staked : Balance

unfoldable pub farmed_tokens_of : Balance → List ℕ → Result (List Balance)
farmed_tokens_of farmed [] = ok []
farmed_tokens_of farmed (rate ∷ rates) = do
  amount ← safe_mul farmed rate
  amounts ← farmed_tokens_of farmed rates
  ok (amount ∷ amounts)

unfoldable pub vault_status : Env → Vault → Contract → Result Status
unfolding farmed_tokens_of
vault_status env v c = do
  r ← current_round env c
  acc ← compute_reward_acc r c
  v' ← ping v acc r
  farmed ← farmed_tokens_of v'.farmed c.farm_token_rates
  seconds ← mul_u64 (if ltb 1 r then r - 1 else 0) round
  timestamp ← add_u64 c.farming_start seconds
  ok (record {
    stake_tokens = v'.staked;
    stake = v'.min_stake;
    farmed_units = v'.farmed;
    farmed_tokens = farmed;
    boost_nfts = v'.boost_nft;
    timestamp = timestamp;
    total_cheddar_staked = v'.cheddar_staked;
  })

unfoldable pub status : Env → AccountId → Contract → Result (Option Status)
unfolding vault_status
status env account_id c = elim (get account_id c.vaults) [
  | none ↦ ok none
  | some v ↦ (vault_status env v c >>= λ s. ok (some s))
]

-- The view of the state (P4ContractParams).
pub record ContractParams : Type 0 where
  pub is_active : Bool
  pub owner_id : AccountId
  pub stake_tokens : List AccountId
  pub stake_rates : List ℕ
  pub farm_unit_emission : ℕ
  pub farm_tokens : List AccountId
  pub farm_token_rates : List ℕ
  pub farm_deposits : List ℕ
  pub farming_start : ℕ
  pub farming_end : ℕ
  pub boost_nft_contracts : List AccountId
  pub total_staked : List Balance
  pub total_farmed : List Balance
  pub total_boost : List Balance
  pub accounts_registered : ℕ
  pub cheddar_rate : Balance
  pub cheddar : AccountId

unfoldable pub get_contract_params : Contract → ContractParams
get_contract_params c = record {
  is_active = c.is_active;
  owner_id = c.owner_id;
  stake_tokens = c.stake_nft_tokens;
  stake_rates = c.stake_rates;
  farm_unit_emission = c.farm_unit_emission;
  farm_tokens = c.farm_tokens;
  farm_token_rates = c.farm_token_rates;
  farm_deposits = c.farm_deposits;
  farming_start = c.farming_start;
  farming_end = c.farming_end;
  boost_nft_contracts = c.boost_nft_contracts;
  total_staked = c.total_stake;
  total_farmed = c.total_harvested;
  total_boost = c.total_boost;
  accounts_registered = c.accounts_registered;
  cheddar_rate = c.cheddar_rate;
  cheddar = c.cheddar;
}
