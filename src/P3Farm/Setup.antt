-- ===== src/P3Farm/Setup.antt =====
-- The constructor, the setup phase and the owner's calls (p3-farm/src/lib.rs).
use cheddar.Prelude.{
  ℕ, ◌/◌, Bool, true, false, not, ◌&&◌, List, [], ◌∷◌, Result, ok, ◌>>=◌, ◌>>◌, assert, ltb, ◌==◌,
  ◌!=◌, length, replicate, set,
}
use cheddar.Prelude.Words.{mul_u128, checked_sub}
use cheddar.Near.{Env, AccountId, Balance}
use cheddar.P3Lib.{second, round, near, safe_mul, find_acc_idx, round_number, index}
use cheddar.P3Farm.State.{Contract, Promise, ft_transfer, no_callback}
use cheddar.P3Farm.Staking.{assert_owner, assert_one_yocto}

-- The vectors of the farmed and of the staked tokens have one entry for each token.
unfoldable pub has_farm_lengths : Contract → Bool
has_farm_lengths c =
    length c.farm_tokens == length c.farm_token_rates
    && length c.farm_tokens == length c.total_harvested
    && length c.farm_tokens == length c.farm_deposits

unfoldable pub has_stake_lengths : Contract → Bool
has_stake_lengths c =
    length c.stake_tokens == length c.stake_rates
    && length c.stake_tokens == length c.total_stake
    && length c.stake_tokens == length c.fee_collected

unfoldable pub check_vectors : Contract → Result (Unit {0})
unfolding has_farm_lengths has_stake_lengths
check_vectors c = do
  assert (has_farm_lengths c) "farm token vector length is not correct"
  assert (has_stake_lengths c) "stake token vector length is not correct"

unfoldable pub initial_contract :
    AccountId
    → List AccountId
    → List ℕ
    → ℕ
    → List AccountId
    → List ℕ
    → ℕ
    → ℕ
    → AccountId
    → ℕ
    → ℕ
    → AccountId
    → Contract
initial_contract owner_id stake_tokens stake_rates farm_unit_emission farm_tokens farm_token_rates
      farming_start farming_end cheddar_nft cheddar_nft_boost fee_rate treasury =
    record {
      is_active = true;
      setup_finalized = false;
      owner_id = owner_id;
      treasury = treasury;
      vaults = [];
      stake_tokens = stake_tokens;
      staked_units = 0;
      stake_rates = stake_rates;
      farm_tokens = farm_tokens;
      farm_token_rates = farm_token_rates;
      farm_unit_emission = farm_unit_emission;
      farm_deposits = replicate (length farm_tokens) 0;
      farming_start = farming_start;
      farming_end = farming_end;
      cheddar_nft = cheddar_nft;
      cheddar_nft_boost = cheddar_nft_boost;
      total_harvested = replicate (length farm_tokens) 0;
      reward_acc = 0;
      reward_acc_round = 0;
      total_stake = replicate (length stake_tokens) 0;
      accounts_registered = 0;
      fee_rate = fee_rate;
      fee_collected = replicate (length stake_tokens) 0;
    }

unfoldable pub new :
    Env
    → AccountId
    → List AccountId
    → List ℕ
    → ℕ
    → List AccountId
    → List ℕ
    → ℕ
    → ℕ
    → AccountId
    → ℕ
    → ℕ
    → AccountId
    → Result Contract
unfolding initial_contract check_vectors
new env owner_id stake_tokens stake_rates farm_unit_emission farm_tokens farm_token_rates
      farming_start farming_end cheddar_nft cheddar_nft_boost fee_rate treasury =
    do
      assert (ltb (env.block_timestamp / second) farming_start) "start must be in the future"
      assert (ltb farming_start farming_end) "End must be after start"
      let c =
          initial_contract owner_id stake_tokens stake_rates farm_unit_emission farm_tokens
            farm_token_rates farming_start farming_end cheddar_nft cheddar_nft_boost fee_rate
            treasury
      check_vectors c
      ok c

-- The units that all rounds of the farming emit, as one farm token.
unfoldable pub expected_deposit : Contract → ℕ → Result Balance
expected_deposit c rate = do
  total_rounds ← round_number c.farming_start c.farming_end c.farming_end
  units ← mul_u128 total_rounds c.farm_unit_emission
  safe_mul units rate

-- `_setup_deposit`
unfoldable pub setup_deposit : AccountId → Balance → Contract → Result Contract
unfolding expected_deposit
setup_deposit token amount c = do
  assert (not c.setup_finalized) "setup deposits must be done when contract setup is not finalized"
  token_i ← find_acc_idx token c.farm_tokens
  rate ← index c.farm_token_rates token_i
  expected ← expected_deposit c rate
  deposit ← index c.farm_deposits token_i
  assert (deposit == 0) "deposit already done for the given token"
  assert (amount == expected) "Expected deposit for token {} is {}, got {}"
  ok (record c { farm_deposits = set c.farm_deposits token_i amount })

unfoldable pub setup_deposit_near : Env → Contract → Result Contract
unfolding setup_deposit
setup_deposit_near env c = setup_deposit near env.attached_deposit c

-- `for i in 0..farm_deposits.len()`: no deposit is zero.
unfoldable pub all_deposited : List ℕ → Result (Unit {0})
all_deposited [] = ok tt
all_deposited (x ∷ xs) = assert (x != 0) "Deposit for token {} not done" >>= λ _. all_deposited xs

unfoldable pub finalize_setup : Env → Contract → Result Contract
unfolding all_deposited
finalize_setup env c = do
  assert (not c.setup_finalized) "setup deposits must be done when contract setup is not finalized"
  last ← checked_sub c.farming_start round
  assert (ltb (env.block_timestamp / second) last) "must be finalized at last before farm start"
  all_deposited c.farm_deposits
  ok (record c { setup_finalized = true })

unfoldable pub expected_deposits : Contract → List ℕ → Result (List Balance)
unfolding expected_deposit
expected_deposits c [] = ok []
expected_deposits c (rate ∷ rates) = do
  amount ← expected_deposit c rate
  amounts ← expected_deposits c rates
  ok (amount ∷ amounts)

-- The expected deposits beside those received.
unfoldable pub finalize_setup_expected : Contract → Result (List Balance × List Balance)
unfolding expected_deposits
finalize_setup_expected c = do
  out ← expected_deposits c c.farm_token_rates
  ok (out, c.farm_deposits)

unfoldable pub set_active : Env → Bool → Contract → Result Contract
unfolding assert_owner
set_active env is_open c = do assert_owner env c; ok (record c { is_active = is_open })

unfoldable pub set_start_end : Env → ℕ → ℕ → Contract → Result Contract
unfolding assert_owner
set_start_end env start end c = do
  assert_owner env c
  assert (ltb (env.block_timestamp / second) start) "start must be in the future"
  assert (ltb start end) "start must be before end"
  ok (record c { farming_start = start; farming_end = end })

unfoldable pub admin_withdraw :
    Env → AccountId → Balance → Contract → Result (Contract × List Promise)
unfolding assert_owner assert_one_yocto
admin_withdraw env token amount c = do
  assert_one_yocto env
  assert_owner env c
  ok (c, ft_transfer token c.owner_id amount no_callback ∷ [])

unfoldable pub admin_set_rates : Env → List ℕ → Contract → Result Contract
unfolding assert_owner
admin_set_rates env stake_rates c = do
  assert_owner env c
  ok (record c { stake_rates = stake_rates })
