-- ===== src/P4Farm/Setup.antt =====
-- The constructor, the setup phase and the owner's calls (p4-farm-nft/src/lib.rs).
use cheddar.Prelude.{
  ℕ, ◌/◌, Bool, true, false, not, ◌&&◌, List, [], ◌∷◌, Result, ok, ◌>>=◌, ◌>>◌, assert, ltb, ◌==◌,
  ◌!=◌, length, replicate, set,
}
use cheddar.Prelude.Words.{mul_u128, checked_sub}
use cheddar.Near.{Env, AccountId, Balance}
use cheddar.P3Lib.{second, round, near, safe_mul, find_acc_idx, round_number, index}
use cheddar.P4Farm.State.{Contract}
use cheddar.P4Farm.Staking.{assert_owner}

-- The vectors of the farmed and of the staked tokens have one entry for each token.
unfoldable pub has_farm_lengths : Contract → Bool
has_farm_lengths c =
    length c.farm_tokens == length c.farm_token_rates
    && length c.farm_tokens == length c.total_harvested
    && length c.farm_tokens == length c.farm_deposits

unfoldable pub has_stake_lengths : Contract → Bool
has_stake_lengths c =
    length c.stake_nft_tokens == length c.stake_rates
    && length c.stake_nft_tokens == length c.total_stake

unfoldable pub check_vectors : Contract → Result (Unit {0})
unfolding has_farm_lengths has_stake_lengths
check_vectors c = do
  assert (has_farm_lengths c) "farm token vector length is not correct"
  assert (has_stake_lengths c) "stake token vector length is not correct"
  assert (length c.boost_nft_contracts == length c.total_boost)
      "boost contracts vector length is not correct"

-- The arguments of `new`.
pub record Params : Type 0 where
  pub owner_id : AccountId
  pub stake_nft_tokens : List AccountId
  pub stake_rates : List ℕ
  pub farm_unit_emission : ℕ
  pub farm_tokens : List AccountId
  pub farm_token_rates : List ℕ
  pub farming_start : ℕ
  pub farming_end : ℕ
  pub boost_nft_contracts : List AccountId
  pub cheddy : AccountId
  pub nft_boost : ℕ
  pub cheddy_boost : ℕ
  pub cheddar_rate : Balance
  pub cheddar : AccountId
  pub treasury : AccountId

unfoldable pub initial_contract : Params → Contract
initial_contract p = record {
  is_active = true;
  setup_finalized = false;
  owner_id = p.owner_id;
  treasury = p.treasury;
  vaults = [];
  stake_nft_tokens = p.stake_nft_tokens;
  staked_units = 0;
  stake_rates = p.stake_rates;
  farm_tokens = p.farm_tokens;
  farm_token_rates = p.farm_token_rates;
  farm_unit_emission = p.farm_unit_emission;
  farm_deposits = replicate (length p.farm_tokens) 0;
  farming_start = p.farming_start;
  farming_end = p.farming_end;
  boost_nft_contracts = p.boost_nft_contracts;
  cheddy = p.cheddy;
  total_boost = replicate (length p.boost_nft_contracts) 0;
  nft_boost = p.nft_boost;
  cheddy_boost = p.cheddy_boost;
  total_harvested = replicate (length p.farm_tokens) 0;
  reward_acc = 0;
  reward_acc_round = 0;
  total_stake = replicate (length p.stake_nft_tokens) 0;
  total_cheddar_stake = 0;
  accounts_registered = 0;
  cheddar_rate = p.cheddar_rate;
  cheddar = p.cheddar;
}

unfoldable pub new : Env → Params → Result Contract
unfolding initial_contract check_vectors
new env p = do
  assert (ltb (env.block_timestamp / second) p.farming_start) "start must be in the future"
  assert (ltb p.farming_start p.farming_end) "End must be after start"
  assert (ltb 0 p.cheddar_rate) "cheddar_rate should be positive"
  let c = initial_contract p
  check_vectors c
  ok c

-- The units that all rounds of the farming emit, as one farm token.
unfoldable pub expected_deposit : Contract → ℕ → Result Balance
expected_deposit c rate = do
  total_rounds ← round_number c.farming_start c.farming_end c.farming_end
  units ← mul_u128 total_rounds c.farm_unit_emission
  safe_mul units rate

-- `_setup_deposit`
unfoldable pub setup_deposit : AccountId → Balance → Contract → Result Contract
unfolding expected_deposit
setup_deposit token amount c = do
  assert (not c.setup_finalized) "setup deposits must be done when contract setup is not finalized"
  token_i ← find_acc_idx token c.farm_tokens
  rate ← index c.farm_token_rates token_i
  expected ← expected_deposit c rate
  deposit ← index c.farm_deposits token_i
  assert (deposit == 0) "deposit already done for the given token"
  assert (amount == expected) "Expected deposit for token {} is {}, got {}"
  ok (record c { farm_deposits = set c.farm_deposits token_i amount })

unfoldable pub setup_deposit_near : Env → Contract → Result Contract
unfolding setup_deposit
setup_deposit_near env c = setup_deposit near env.attached_deposit c

-- `for i in 0..farm_deposits.len()`: no deposit is zero.
unfoldable pub all_deposited : List ℕ → Result (Unit {0})
all_deposited [] = ok tt
all_deposited (x ∷ xs) = assert (x != 0) "Deposit for token {} not done" >>= λ _. all_deposited xs

unfoldable pub finalize_setup : Env → Contract → Result Contract
unfolding all_deposited
finalize_setup env c = do
  assert (not c.setup_finalized) "setup deposits must be done when contract setup is not finalized"
  last ← checked_sub c.farming_start round
  assert (ltb (env.block_timestamp / second) last) "must be finalized at last before farm start"
  all_deposited c.farm_deposits
  ok (record c { setup_finalized = true })

unfoldable pub expected_deposits : Contract → List ℕ → Result (List Balance)
unfolding expected_deposit
expected_deposits c [] = ok []
expected_deposits c (rate ∷ rates) = do
  amount ← expected_deposit c rate
  amounts ← expected_deposits c rates
  ok (amount ∷ amounts)

-- The expected deposits beside those received.
unfoldable pub finalize_setup_expected : Contract → Result (List Balance × List Balance)
unfolding expected_deposits
finalize_setup_expected c = do
  out ← expected_deposits c c.farm_token_rates
  ok (out, c.farm_deposits)

unfoldable pub set_active : Env → Bool → Contract → Result Contract
unfolding assert_owner
set_active env is_open c = do assert_owner env c; ok (record c { is_active = is_open })

unfoldable pub set_start_end : Env → ℕ → ℕ → Contract → Result Contract
unfolding assert_owner
set_start_end env start end c = do
  assert_owner env c
  assert (ltb (env.block_timestamp / second) start) "start must be in the future"
  assert (ltb start end) "start must be before end"
  ok (record c { farming_start = start; farming_end = end })

unfoldable pub stop : Env → Contract → Result Contract
unfolding assert_owner
stop env c = do
  assert_owner env c
  assert (ltb (env.block_timestamp / second) c.farming_end) "farm already finished"
  ok (record c { farming_end = env.block_timestamp / second })
