-- ===== src/P3Farm/Staking.antt =====
-- Staking, unstaking, harvesting and closing (p3-farm/src/vault.rs, lib.rs).
use cheddar.Prelude.{
  ℕ, zero, suc, ◌+◌, not, List, [], ◌∷◌, ◌++◌, Result, ok, ◌>>=◌, ◌>>◌, assert, ltb, leb, ◌==◌,
  if◌then◌else◌, length, set,
}
use cheddar.Prelude.Words.{checked_sub}
use cheddar.Near.{Env, AccountId, Balance}
use cheddar.Near.LookupMap.{remove}
use cheddar.P3Lib.{index, add_at, sum_u128, find_acc_idx, storage_cost}
use cheddar.P3Farm.State.{Vault, Contract, Promise, transfer, nft_transfer, nft_sent, is_empty}
use cheddar.P3Farm.Rewards.{
  get_vault, ping_all, recompute_stake, put_vault, is_empty_vault, min_stake,
}
use cheddar.P3Farm.Transfers.{transfer_staked_tokens, transfer_farmed_tokens, send_crop}

unfoldable pub assert_is_active : Contract → Result (Unit {0})
assert_is_active c = do
  assert c.setup_finalized "contract is not setup yet"
  assert c.is_active "contract is not active"

unfoldable pub assert_one_yocto : Env → Result (Unit {0})
assert_one_yocto env =
    assert (env.attached_deposit == 1) "Requires attached deposit of exactly 1 yoctoNEAR"

unfoldable pub assert_owner : Env → Contract → Result (Unit {0})
assert_owner env c =
    assert (env.predecessor_account_id == c.owner_id) "can only be called by the owner"

-- `_stake`, which returns the new stake units.
unfoldable pub stake :
    Env → AccountId → AccountId → Balance → Contract → Result (Contract × Balance)
unfolding put_vault
stake env user token amount c = do
  assert (ltb 0 amount) "staked amount must be positive"
  token_i ← find_acc_idx token c.stake_tokens
  v ← get_vault c user
  (v₁, c₁) ← ping_all env v c
  staked ← add_at v₁.staked token_i amount
  total_stake ← add_at c₁.total_stake token_i amount
  (v₂, c₂) ←
      recompute_stake (record v₁ { staked = staked }) (record c₁ { total_stake = total_stake })
  ok (put_vault user v₂ c₂, v₂.min_stake)

-- `_withdraw_nft`
unfoldable pub send_nft :
    Env → AccountId → Vault → AccountId → Contract → Result (Vault × Contract × List Promise)
send_nft env user v receiver c = do
  assert (not (is_empty v.cheddy)) "Sender has no NFT deposit"
  (v₁, c₁) ← ping_all env v c
  let promise = nft_transfer c₁.cheddar_nft receiver v₁.cheddy (nft_sent user v₁.cheddy)
  (v₂, c₂) ← recompute_stake (record v₁ { cheddy = "" }) c₁
  ok (v₂, c₂, promise ∷ [])

-- `for i in i..i + n`: all that the vault has staked goes back.
unfoldable pub return_staked_from :
    ℕ → ℕ → AccountId → List Balance → Contract → Result (Contract × List Promise)
return_staked_from zero i a staked c = ok (c, [])
return_staked_from (suc n) i a staked c = do
  amount ← index staked i
  (c₁, ps) ← transfer_staked_tokens a i amount c
  (c₂, qs) ← return_staked_from n (i + 1) a staked c₁
  ok (c₂, ps ++ qs)

-- The Cheddy of a closed vault, if it has one.
unfoldable pub return_nft : Env → AccountId → Vault → Contract → Result (Contract × List Promise)
return_nft env a v c =
    if is_empty v.cheddy then ok (c, []) else (send_nft env a v a c >>= λ (_, c', ps). ok (c', ps))

-- The vault, already pinged and taken off the map, is paid out.
unfoldable pub pay_out : Env → AccountId → Vault → Contract → Result (Contract × List Promise)
pay_out env a v c = if is_empty_vault v then ok (c, transfer a storage_cost ∷ []) else do
  s ← min_stake v.staked c.stake_rates
  staked_units ← checked_sub c.staked_units s
  (c₁, ps) ←
      return_staked_from (length c.total_stake) 0 a v.staked
        (record c { staked_units = staked_units })
  (c₂, qs) ← send_crop a v.farmed c₁
  (c₃, rs) ← return_nft env a v c₂
  ok (c₃, ps ++ qs ++ rs)

unfoldable pub close : Env → Contract → Result (Contract × List Promise)
unfolding assert_is_active assert_one_yocto
close env c = do
  assert_is_active c
  assert_one_yocto env
  let a = env.predecessor_account_id
  v ← get_vault c a
  (v₁, c₁) ← ping_all env v c
  n ← checked_sub c₁.accounts_registered 1
  pay_out env a v₁ (record c₁ { accounts_registered = n; vaults = remove a c₁.vaults })

-- The unstaking of a part; the user keeps a vault.
unfoldable pub unstake_part :
    Env → AccountId → ℕ → Balance → Vault → Contract → Result (Contract × Balance × List Promise)
unfolding put_vault
unstake_part env user token_i amount v c = do
  (v₁, c₁) ← ping_all env v c
  held ← index v₁.staked token_i
  remaining ← checked_sub held amount
  (v₂, c₂) ← recompute_stake (record v₁ { staked = set v₁.staked token_i remaining }) c₁
  (c₃, ps) ← transfer_staked_tokens user token_i amount (put_vault user v₂ c₂)
  ok (c₃, remaining, ps)

-- `unstake` with `_unstake`: what the user still has staked of the token.
unfoldable pub unstake :
    Env → AccountId → Balance → Contract → Result (Contract × Balance × List Promise)
unfolding assert_is_active assert_one_yocto
unstake env token amount c = do
  assert_is_active c
  assert_one_yocto env
  let user = env.predecessor_account_id
  token_i ← find_acc_idx token c.stake_tokens
  v ← get_vault c user
  held ← index v.staked token_i
  assert (leb amount held) "E30: not enough staked tokens"
  total ← sum_u128 0 v.staked
  if amount == total
      then (close env c >>= λ (c', ps). ok (c', 0, ps))
      else unstake_part env user token_i amount v c

unfoldable pub withdraw_crop : Env → Contract → Result (Contract × List Promise)
unfolding assert_is_active put_vault
withdraw_crop env c = do
  assert_is_active c
  let a = env.predecessor_account_id
  v ← get_vault c a
  (v₁, c₁) ← ping_all env v c
  send_crop a v₁.farmed (put_vault a (record v₁ { farmed = 0 }) c₁)

-- The vault read from the map is changed, and not written back.
unfoldable pub withdraw_farmed_recovered :
    Env → AccountId → Contract → Result (Contract × List Promise)
unfolding assert_is_active
withdraw_farmed_recovered env token c = do
  assert_is_active c
  let a = env.predecessor_account_id
  v ← get_vault c a
  token_i ← find_acc_idx token c.farm_tokens
  amount ← index v.farmed_recovered token_i
  assert (ltb 0 amount) "user {} balance is zero"
  transfer_farmed_tokens a token_i amount c
