-- ===== src/P4Farm/Transfers.antt =====
-- NFTs and tokens sent to a user, and what their callbacks do (p4-farm-nft/src/lib.rs).
use cheddar.Prelude.{
  ℕ, zero, suc, ◌+◌, Bool, true, false, List, [], ◌∷◌, ◌++◌, Option, none, some, get_or, Result, ok,
  String, expect, ◌>>=◌, ◌==◌, if◌then◌else◌, set, length,
}
use cheddar.Prelude.Words.{add_u128, checked_sub}
use cheddar.Near.{Env, AccountId, Balance}
use cheddar.P3Lib.{near, index, add_at, sub_at, safe_mul}
use cheddar.P4Farm.State.{
  TokenId, ParseAccount, Contract, Promise, transfer, ft_transfer, nft_transfer, staked_sent,
  farmed_sent, cheddar_sent,
}
use cheddar.P4Farm.Identifiers.{promise_result_as_failed}
use cheddar.P4Farm.Rewards.{recompute_stake, recovered_vault, put_vault}

-- The staked Cheddar of a closed account, or that of one NFT.
unfoldable pub transfer_staked_cheddar :
    AccountId → Option Balance → Contract → Result (Contract × List Promise)
transfer_staked_cheddar user amount c = do
  let transfered_amount = get_or amount c.cheddar_rate
  total ← checked_sub c.total_cheddar_stake transfered_amount
  ok (
    record c { total_cheddar_stake = total },
    ft_transfer c.cheddar user transfered_amount (cheddar_sent user transfered_amount) ∷ [],
  )

unfoldable pub transfer_staked_nft :
    AccountId → ℕ → TokenId → Contract → Result (Contract × List Promise)
transfer_staked_nft user nft_ctr_idx token_id c = do
  nft_contract_id ← index c.stake_nft_tokens nft_ctr_idx
  total_stake ← sub_at c.total_stake nft_ctr_idx 1
  ok (
    record c { total_stake = total_stake },
    nft_transfer nft_contract_id user token_id (staked_sent user nft_ctr_idx token_id) ∷ [],
  )

unfoldable pub transfer_farmed_tokens :
    AccountId → ℕ → Balance → Contract → Result (Contract × List Promise)
transfer_farmed_tokens user token_idx amount c = do
  token ← index c.farm_tokens token_idx
  total_harvested ← add_at c.total_harvested token_idx amount
  farm_deposits ← sub_at c.farm_deposits token_idx amount
  let c' = record c { total_harvested = total_harvested; farm_deposits = farm_deposits }
  if token == near
      then ok (c', transfer user amount ∷ [])
      else ok (c', ft_transfer token user amount (farmed_sent user token_idx amount) ∷ [])

-- `for i in i..i + n`, sending the farmed units as each farm token.
unfoldable pub withdraw_crop_from :
    ℕ → ℕ → AccountId → Balance → Contract → Result (Contract × List Promise)
withdraw_crop_from zero i user farmed_units c = ok (c, [])
withdraw_crop_from (suc n) i user farmed_units c = do
  rate ← index c.farm_token_rates i
  amount ← safe_mul farmed_units rate
  (c₁, ps) ← transfer_farmed_tokens user i amount c
  (c₂, qs) ← withdraw_crop_from n (i + 1) user farmed_units c₁
  ok (c₂, ps ++ qs)

-- `_withdraw_crop`
unfoldable pub send_crop : AccountId → Balance → Contract → Result (Contract × List Promise)
unfolding withdraw_crop_from
send_crop user farmed_units c =
    if farmed_units == 0
    then ok (c, [])
    else withdraw_crop_from (length c.farm_tokens) 0 user farmed_units c

-- `xs[i].push(token_id)`
unfoldable pub push_at : List (List TokenId) → ℕ → TokenId → Result (List (List TokenId))
push_at xs i token_id = do tokens ← index xs i; ok (set xs i (tokens ++ (token_id ∷ [])))

module _ (parse : ParseAccount) where
  -- An NFT that did not arrive is staked again.
  unfoldable pub recover_staked : AccountId → ℕ → Option TokenId → Contract → Result Contract
  unfolding push_at
  recover_staked user contract_i token_id c = do
    (v, c₁) ← recovered_vault user c
    token ← expect token_id "called `Option::unwrap()` on a `None` value"
    staked ← push_at v.staked contract_i token
    (v', c₂) ← recompute_stake parse (record v { staked = staked }) c₁
    ok (put_vault user v' c₂)

  -- Farmed tokens that did not arrive are kept for the user.
  unfoldable pub recover_farmed : AccountId → ℕ → Option Balance → Contract → Result Contract
  recover_farmed user contract_i amount c = do
    (v, c₁) ← recovered_vault user c
    x ← expect amount "called `Option::unwrap()` on a `None` value"
    total_harvested ← sub_at c₁.total_harvested contract_i x
    farmed_recovered ← add_at v.farmed_recovered contract_i x
    (v', c₂) ←
        recompute_stake parse (record v { farmed_recovered = farmed_recovered })
          (record c₁ { total_harvested = total_harvested })
    ok (put_vault user v' c₂)

  unfoldable pub recover_state :
      AccountId → Bool → ℕ → Option TokenId → Option Balance → Contract → Result Contract
  recover_state user is_staked contract_i token_id amount c =
      if is_staked
      then recover_staked user contract_i token_id c
      else recover_farmed user contract_i amount c

  unfoldable pub transfer_staked_callback :
      Env → AccountId → ℕ → TokenId → Contract → Result Contract
  unfolding recover_state
  transfer_staked_callback env user nft_ctr_idx token_id c =
      promise_result_as_failed env >>= λ fails.
      if fails
      then (do
        _ ← index c.stake_nft_tokens nft_ctr_idx
        total_stake ← add_at c.total_stake nft_ctr_idx 1
        recover_state user true nft_ctr_idx (some token_id) none
            (record c { total_stake = total_stake }))
      else ok c

  unfoldable pub transfer_farmed_callback :
      Env → AccountId → ℕ → Balance → Contract → Result Contract
  unfolding recover_state
  transfer_farmed_callback env user ft_ctr_idx amount c = promise_result_as_failed env >>= λ fails.
      if fails
      then (do
        _ ← index c.farm_tokens ft_ctr_idx
        recover_state user false ft_ctr_idx none (some amount) c)
      else ok c

  unfoldable pub transfer_staked_cheddar_callback :
      Env → AccountId → Balance → Contract → Result Contract
  transfer_staked_cheddar_callback env user amount c = promise_result_as_failed env >>= λ fails.
      if fails
      then (do
        total ← add_u128 c.total_cheddar_stake amount
        (v, c₁) ← recovered_vault user (record c { total_cheddar_stake = total })
        cheddar_staked ← add_u128 v.cheddar_staked amount
        (v', c₂) ← recompute_stake parse (record v { cheddar_staked = cheddar_staked }) c₁
        ok (put_vault user v' c₂))
      else ok c

  unfoldable pub withdraw_boost_nft_callback :
      Env → AccountId → String → ℕ → Contract → Result Contract
  withdraw_boost_nft_callback env user contract_and_token_id nft_ctr_idx c =
      promise_result_as_failed env >>= λ fails.
      if fails
      then (do
        (v, c₁) ← recovered_vault user c
        total_boost ← add_at c₁.total_boost nft_ctr_idx 1
        (v', c₂) ←
            recompute_stake parse (record v { boost_nft = contract_and_token_id })
              (record c₁ { total_boost = total_boost })
        ok (put_vault user v' c₂))
      else ok c
