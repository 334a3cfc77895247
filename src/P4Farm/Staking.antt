-- ===== src/P4Farm/Staking.antt =====
-- Staking and unstaking NFTs, harvesting and closing (p4-farm-nft/src/vault.rs, lib.rs).
use cheddar.Prelude.{
  ℕ, zero, suc, ◌+◌, Bool, true, false, not, List, [], ◌∷◌, ◌++◌, some, Result, ok, ◌>>=◌, ◌>>◌,
  assert, ltb, leb, ◌==◌, if◌then◌else◌, length, set,
}
use cheddar.Prelude.Words.{add_u128, checked_sub}
use cheddar.Near.{Env, AccountId, Balance}
use cheddar.Near.LookupMap.{remove}
use cheddar.P3Lib.{index, add_at, sub_at, find_acc_idx, storage_cost}
use cheddar.P4Farm.State.{
  TokenId, ParseAccount, Vault, Contract, Promise, transfer, nft_transfer, boost_sent,
}
use cheddar.P4Farm.Identifiers.{
  is_empty, decimal, join_ids, expected_cheddar_stake, find_token_idx, extract_contract_token_ids,
  min_stake, nft_units_max_transfer_num,
}
use cheddar.P4Farm.Rewards.{
  get_vault, get_number_of_staked_tokens, ping_all, recompute_stake, put_vault, is_empty_vault,
}
use cheddar.P4Farm.Transfers.{
  transfer_staked_nft, transfer_staked_cheddar, transfer_farmed_tokens, send_crop, push_at,
}

unfoldable pub assert_is_active : Contract → Result (Unit {0})
assert_is_active c = do
  assert c.setup_finalized "contract is not setup yet"
  assert c.is_active "contract is not active"

unfoldable pub assert_one_yocto : Env → Result (Unit {0})
assert_one_yocto env =
    assert (env.attached_deposit == 1) "Requires attached deposit of exactly 1 yoctoNEAR"

unfoldable pub assert_owner : Env → Contract → Result (Unit {0})
assert_owner env c =
    assert (env.predecessor_account_id == c.owner_id) "can only be called by the owner"

unfoldable pub stake_cheddar : AccountId → Balance → Contract → Result Contract
unfolding assert_is_active put_vault
stake_cheddar sender_id amount c = do
  assert_is_active c
  vault ← get_vault c sender_id
  assert (leb amount c.cheddar_rate) "User need at least {} to stake one more token. Got {}"
  cheddar_staked ← add_u128 vault.cheddar_staked amount
  total ← add_u128 c.total_cheddar_stake c.cheddar_rate
  ok (
      put_vault sender_id (record vault { cheddar_staked = cheddar_staked })
        (record c { total_cheddar_stake = total }))

-- `Vec::remove`, at an index in range.
abbrev pub remove_elem : List TokenId → ℕ → List TokenId
remove_elem [] i = []
remove_elem (x ∷ xs) zero = xs
remove_elem (x ∷ xs) (suc i) = x ∷ remove_elem xs i

-- The inner loop of `close`: the NFTs of one contract go back.
unfoldable pub return_tokens :
    AccountId → ℕ → List TokenId → Contract → Result (Contract × List Promise)
return_tokens user nft_ctr_idx [] c = ok (c, [])
return_tokens user nft_ctr_idx (token_id ∷ token_ids) c = do
  (c₁, ps) ← transfer_staked_nft user nft_ctr_idx token_id c
  (c₂, qs) ← return_tokens user nft_ctr_idx token_ids c₁
  ok (c₂, ps ++ qs)

-- `for nft_ctr_idx in i..i + n`: all that the vault has staked goes back.
unfoldable pub return_staked_from :
    ℕ → ℕ → AccountId → List (List TokenId) → Contract → Result (Contract × List Promise)
unfolding return_tokens
return_staked_from zero i user staked c = ok (c, [])
return_staked_from (suc n) i user staked c = do
  token_ids ← index staked i
  (c₁, ps) ← return_tokens user i token_ids c
  (c₂, qs) ← return_staked_from n (i + 1) user staked c₁
  ok (c₂, ps ++ qs)

-- The Cheddar of a closed vault, if it has any.
unfoldable pub return_cheddar : AccountId → Vault → Contract → Result (Contract × List Promise)
return_cheddar user vault c =
    if ltb 0 vault.cheddar_staked
    then transfer_staked_cheddar user (some vault.cheddar_staked) c
    else ok (c, [])

-- The account is taken off the map.
unfoldable pub unregister : AccountId → Contract → Result Contract
unregister user c = do
  n ← checked_sub c.accounts_registered 1
  ok (record c { accounts_registered = n; vaults = remove user c.vaults })

module _ (parse : ParseAccount) where
  -- `_nft_stake`
  unfoldable pub nft_stake :
      Env → AccountId → AccountId → TokenId → Contract → Result (Contract × Bool)
  unfolding put_vault
  nft_stake env user nft_contract_id token_id c = do
    nft_ctr_idx ← find_acc_idx nft_contract_id c.stake_nft_tokens
    vault ← get_vault c user
    total_staked_tokens ← get_number_of_staked_tokens vault
    expected ← expected_cheddar_stake total_staked_tokens c.cheddar_rate
    assert (leb expected vault.cheddar_staked)
        "You need to stake {} yoctoCheddar more to stake one more NFT token"
    (v₁, c₁) ← ping_all env vault c
    staked ← push_at v₁.staked nft_ctr_idx token_id
    total_stake ← add_at c₁.total_stake nft_ctr_idx 1
    (v₂, c₂) ←
        recompute_stake parse (record v₁ { staked = staked })
          (record c₁ { total_stake = total_stake })
    ok (put_vault user v₂ c₂, true)

  -- The boost NFT goes into a vault that has none.
  unfoldable pub put_boost :
      Env → AccountId → Vault → ℕ → TokenId → Contract → Result (Contract × Bool)
  unfolding put_vault join_ids decimal
  put_boost env user vault nft_ctr_idx token_id c = do
    (v₁, c₁) ← ping_all env vault c
    let contract_token_id = join_ids (decimal nft_ctr_idx) token_id
    total_boost ← add_at c₁.total_boost nft_ctr_idx 1
    (v₂, c₂) ←
        recompute_stake parse (record v₁ { boost_nft = contract_token_id })
          (record c₁ { total_boost = total_boost })
    ok (put_vault user v₂ c₂, true)

  -- `_boost_stake`
  unfoldable pub boost_stake :
      Env → AccountId → AccountId → TokenId → Contract → Result (Contract × Bool)
  unfolding put_boost
  boost_stake env user nft_contract_id token_id c = do
    nft_ctr_idx ← find_acc_idx nft_contract_id c.boost_nft_contracts
    vault ← get_vault c user
    if is_empty vault.boost_nft
        then put_boost env user vault nft_ctr_idx token_id c
        else ok (c, false)

  -- `_withdraw_boost_nft`
  unfoldable pub send_boost_nft :
      Env → AccountId → Vault → Contract → Result (Vault × Contract × List Promise)
  unfolding put_vault
  send_boost_nft env user vault c = do
    assert (not (is_empty vault.boost_nft)) "Sender has no NFT deposit"
    (v₁, c₁) ← ping_all env vault c
    (boost_nft_contract_id, boost_nft_token_id) ← extract_contract_token_ids parse v₁.boost_nft
    nft_ctr_idx ← find_acc_idx boost_nft_contract_id c₁.boost_nft_contracts
    total_boost ← sub_at c₁.total_boost nft_ctr_idx 1
    let promise =
        nft_transfer boost_nft_contract_id user boost_nft_token_id
          (boost_sent user v₁.boost_nft nft_ctr_idx)
    (v₂, c₂) ←
        recompute_stake parse (record v₁ { boost_nft = "" })
          (record c₁ { total_boost = total_boost })
    ok (v₂, put_vault user v₂ c₂, promise ∷ [])

  unfoldable pub withdraw_boost_nft : Env → Contract → Result (Contract × List Promise)
  unfolding assert_one_yocto send_boost_nft
  withdraw_boost_nft env c = do
    assert_one_yocto env
    let user = env.predecessor_account_id
    vault ← get_vault c user
    (_, c', ps) ← send_boost_nft env user vault c
    ok (c', ps)

  -- The boost NFT of a closed vault, if it has one.
  unfoldable pub return_boost :
      Env → AccountId → Vault → Contract → Result (Vault × Contract × List Promise)
  unfolding send_boost_nft
  return_boost env user vault c =
      if is_empty vault.boost_nft then ok (vault, c, []) else send_boost_nft env user vault c

  -- What a vault has is sent, and its units are taken off.
  unfoldable pub pay_out : Env → AccountId → Vault → Contract → Result (Contract × List Promise)
  unfolding return_staked_from return_boost return_cheddar
  pay_out env user vault c = do
    units ← min_stake vault.staked c.stake_rates
    staked_units ← checked_sub c.staked_units units
    (c₁, ps) ←
        return_staked_from (length c.total_stake) 0 user vault.staked
          (record c { staked_units = staked_units })
    (c₂, qs) ← send_crop user vault.farmed c₁
    (vault', c₃, rs) ← return_boost env user vault c₂
    (c₄, ss) ← return_cheddar user vault' c₃
    ok (c₄, ps ++ (qs ++ (rs ++ ss)))

  unfoldable pub close : Env → Contract → Result (Contract × List Promise)
  unfolding assert_is_active assert_one_yocto pay_out unregister
  close env c = do
    assert_is_active c
    assert_one_yocto env
    let user = env.predecessor_account_id
    vault ← get_vault c user
    n ← get_number_of_staked_tokens vault
    assert (leb n nft_units_max_transfer_num)
        "Because of gas limit for single transaction action is not allowed."
    (v₁, c₁) ← ping_all env vault c
    if is_empty_vault v₁
        then (unregister user c₁ >>= λ c₂. ok (c₂, transfer user storage_cost ∷ []))
        else (do (c₂, ps) ← pay_out env user v₁ c₁; c₃ ← unregister user c₂; ok (c₃, ps))

  -- The NFT goes back, and the user keeps a vault.
  unfoldable pub unstake_one :
      Env
      → AccountId
      → ℕ
      → ℕ
      → TokenId
      → Vault
      → Contract
      → Result (Contract × List TokenId × List Promise)
  unfolding put_vault
  unstake_one env user nft_ctr_idx token_idx token_id vault c = do
    (v₁, c₁) ← ping_all env vault c
    tokens ← index v₁.staked nft_ctr_idx
    let remaining_tokens = remove_elem tokens token_idx
    (v₂, c₂) ←
        recompute_stake parse (record v₁ { staked = set v₁.staked nft_ctr_idx remaining_tokens }) c₁
    (c₃, ps) ← transfer_staked_nft user nft_ctr_idx token_id (put_vault user v₂ c₂)
    ok (c₃, remaining_tokens, ps)

  -- `unstake` with `_nft_unstake`: the NFTs of the contract that are still staked.
  unfoldable pub unstake :
      Env → AccountId → TokenId → Contract → Result (Contract × List TokenId × List Promise)
  unfolding assert_is_active assert_one_yocto close unstake_one
  unstake env nft_contract_id token_id c = do
    assert_is_active c
    assert_one_yocto env
    let user = env.predecessor_account_id
    nft_ctr_idx ← find_acc_idx nft_contract_id c.stake_nft_tokens
    vault ← get_vault c user
    tokens ← index vault.staked nft_ctr_idx
    token_idx ← find_token_idx token_id tokens
    n ← get_number_of_staked_tokens vault
    if n == 1
        then (close env c >>= λ (c', ps). ok (c', [], ps))
        else unstake_one env user nft_ctr_idx token_idx token_id vault c

unfoldable pub withdraw_crop : Env → Contract → Result (Contract × List Promise)
unfolding assert_is_active put_vault
withdraw_crop env c = do
  assert_is_active c
  let a = env.predecessor_account_id
  v ← get_vault c a
  (v₁, c₁) ← ping_all env v c
  send_crop a v₁.farmed (put_vault a (record v₁ { farmed = 0 }) c₁)

-- The vault read from the map is changed, and not written back.
unfoldable pub withdraw_farmed_recovered :
    Env → AccountId → Contract → Result (Contract × List Promise)
unfolding assert_is_active
withdraw_farmed_recovered env token c = do
  assert_is_active c
  let a = env.predecessor_account_id
  v ← get_vault c a
  token_i ← find_acc_idx token c.farm_tokens
  amount ← index v.farmed_recovered token_i
  assert (ltb 0 amount) "user {} balance is zero"
  transfer_farmed_tokens a token_i amount c
