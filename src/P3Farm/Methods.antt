-- ===== src/P3Farm/Methods.antt =====
-- The other calls of the P3 farm: token and NFT receivers, storage and views
-- (p3-farm/src/lib.rs, vault.rs).
use Prim.Native.String.{String}
use cheddar.Prelude.{
  ℕ, ◌-◌, Bool, true, false, not, List, [], ◌∷◌, Option, none, some, get_or, Result, ok, ◌>>=◌,
  ◌>>◌, assert, ltb, leb, ◌!=◌, if◌then◌else◌,
}
use cheddar.Prelude.Words.{mul_u64, add_u64}
use cheddar.Near.{Env, AccountId, Balance}
use cheddar.Near.LookupMap.{get, contains_key}
use cheddar.P3Lib.{near, round, storage_cost, safe_mul}
use cheddar.P3Farm.State.{Vault, Contract, Promise, transfer, is_empty}
use cheddar.P3Farm.Rewards.{
  get_vault, ping, ping_all, current_round, compute_reward_acc, recompute_stake, put_vault,
  new_vault,
}
use cheddar.P3Farm.Staking.{assert_is_active, assert_one_yocto, stake, send_nft, close}
use cheddar.P3Farm.Setup.{setup_deposit}

-- The message "setup reward deposit" marks a farm deposit.
pub data TransferMsg : Type 0 where
  setup_reward_deposit : TransferMsg
  other_msg : String → TransferMsg

unfoldable pub ft_on_transfer :
    Env → AccountId → Balance → TransferMsg → Contract → Result (Contract × Balance)
unfolding assert_is_active
ft_on_transfer env sender_id amount msg c = do
  assert c.is_active "contract is not active"
  let token = env.predecessor_account_id
  assert (token != near) "near must be sent using deposit_near()"
  assert (ltb 0 amount) "staked amount must be positive"
  c' ← elim msg [
    | setup_reward_deposit ↦ setup_deposit token amount c
    | other_msg _ ↦ do
      assert_is_active c
      (staked, _) ← stake env sender_id token amount c
      ok staked
  ]
  ok (c', 0)

unfoldable pub stake_near : Env → Contract → Result Contract
unfolding assert_is_active
stake_near env c = do
  assert_is_active c
  (staked, _) ← stake env env.predecessor_account_id near env.attached_deposit c
  ok staked

-- The Cheddy goes into a vault that has none; the NFT goes back when the answer is true.
unfoldable pub put_nft : Env → AccountId → Vault → String → Contract → Result (Contract × Bool)
unfolding put_vault
put_nft env owner v token_id c = if not (is_empty v.cheddy) then ok (c, true) else do
  (v₁, c₁) ← ping_all env v c
  (v₂, c₂) ← recompute_stake (record v₁ { cheddy = token_id }) c₁
  ok (put_vault owner v₂ c₂, false)

unfoldable pub nft_on_transfer : Env → AccountId → String → Contract → Result (Contract × Bool)
unfolding put_nft
nft_on_transfer env previous_owner_id token_id c =
    if env.predecessor_account_id != c.cheddar_nft
    then ok (c, true)
    else elim (get previous_owner_id c.vaults) [
      | none ↦ ok (c, true)
      | some v ↦ put_nft env previous_owner_id v token_id c
    ]

unfoldable pub withdraw_nft : Env → AccountId → Contract → Result (Contract × List Promise)
unfolding assert_one_yocto put_vault
withdraw_nft env receiver_id c = do
  assert_one_yocto env
  let user = env.predecessor_account_id
  v ← get_vault c user
  (v', c', ps) ← send_nft env user v receiver_id c
  ok (put_vault user v' c', ps)

unfoldable pub create_account : AccountId → Contract → Result Contract
unfolding put_vault new_vault
create_account user c = do
  n ← add_u64 c.accounts_registered 1
  ok (record (put_vault user (new_vault c) c) { accounts_registered = n })

-- NEAR that goes back to the caller, if there is any.
unfoldable pub send_back : AccountId → Balance → List Promise
send_back account amount = if ltb 0 amount then transfer account amount ∷ [] else []

unfoldable pub storage_deposit :
    Env → Option AccountId → Contract → Result (Contract × List Promise)
unfolding create_account send_back
storage_deposit env account_id c = do
  assert c.is_active "contract is not active"
  let amount = env.attached_deposit
  let account = get_or account_id env.predecessor_account_id
  if contains_key account c.vaults then ok (c, send_back env.predecessor_account_id amount) else (do
    assert (leb storage_cost amount)
        "The attached deposit is less than the minimum storage balance ({})"
    c' ← create_account account c
    ok (c', send_back env.predecessor_account_id (amount - storage_cost)))

unfoldable pub storage_unregister :
    Env → Option Bool → Contract → Result (Contract × Bool × List Promise)
unfolding assert_one_yocto
storage_unregister env force c = do
  assert_one_yocto env
  if get_or force false then (close env c >>= λ (c', ps). ok (c', true, ps)) else ok (c, false, [])

-- The balance of a registered account, all of it in use.
unfoldable pub storage_balance_of : AccountId → Contract → Option (Balance × Balance)
storage_balance_of account_id c =
    if contains_key account_id c.vaults then some (storage_cost, 0) else none

-- What `status` reports of a vault.
pub record Status : Type 0 where
  pub stake_tokens : List Balance
  pub stake : Balance
  pub farmed_units : Balance
  pub farmed_tokens : List Balance
  pub cheddy_nft : String
  pub timestamp : ℕ

unfoldable pub farmed_tokens_of : Balance → List ℕ → Result (List Balance)
farmed_tokens_of farmed [] = ok []
farmed_tokens_of farmed (rate ∷ rates) = do
  amount ← safe_mul farmed rate
  amounts ← farmed_tokens_of farmed rates
  ok (amount ∷ amounts)

unfoldable pub vault_status : Env → Vault → Contract → Result Status
unfolding farmed_tokens_of
vault_status env v c = do
  r ← current_round env c
  acc ← compute_reward_acc r c
  v' ← ping v acc r
  farmed ← farmed_tokens_of v'.farmed c.farm_token_rates
  seconds ← mul_u64 (if ltb 1 r then r - 1 else 0) round
  timestamp ← add_u64 c.farming_start seconds
  ok (record {
    stake_tokens = v'.staked;
    stake = v'.min_stake;
    farmed_units = v'.farmed;
    farmed_tokens = farmed;
    cheddy_nft = v'.cheddy;
    timestamp = timestamp;
  })

unfoldable pub status : Env → AccountId → Contract → Result (Option Status)
unfolding vault_status
status env account_id c = elim (get account_id c.vaults) [
  | none ↦ ok none
  | some v ↦ (vault_status env v c >>= λ s. ok (some s))
]
