-- ===== src/P3Farm/Transfers.antt =====
-- Tokens sent back to a user, and what their callbacks do (p3-farm/src/lib.rs).
use Prim.Native.String.{String}
use cheddar.Prelude.{
  ℕ, zero, suc, ◌+◌, ◌/◌, Bool, true, false, List, [], ◌∷◌, ◌++◌, none, some, Result, ok, panic,
  ◌>>=◌, ◌==◌, ◌!=◌, if◌then◌else◌, set, get_elem?, length,
}
use cheddar.Prelude.Words.{mul_u128, add_u128, checked_sub}
use cheddar.Near.{Env, AccountId, Balance, not_ready, failed, successful}
use cheddar.P3Lib.{near, index, add_at, sub_at, safe_mul}
use cheddar.P3Farm.State.{
  Contract, Promise, transfer, ft_transfer, staked_sent, farmed_sent, fees_sent,
}
use cheddar.P3Farm.Rewards.{recompute_stake, recovered_vault, put_vault}

-- The tokens at that index go back to the user, less the fee.
unfoldable pub transfer_staked_tokens :
    AccountId → ℕ → Balance → Contract → Result (Contract × List Promise)
transfer_staked_tokens user token_i amount c = if amount == 0 then ok (c, []) else do
  product ← mul_u128 amount c.fee_rate
  let fee = product / 10_000
  net ← checked_sub amount fee
  token ← index c.stake_tokens token_i
  total_stake ← sub_at c.total_stake token_i net
  let c' = record c { total_stake = total_stake }
  if token == near
      then ok (c', transfer user net ∷ [])
      else ok (c', ft_transfer token user net (staked_sent user token_i net fee) ∷ [])

unfoldable pub transfer_farmed_tokens :
    AccountId → ℕ → Balance → Contract → Result (Contract × List Promise)
transfer_farmed_tokens u token_i amount c = do
  token ← index c.farm_tokens token_i
  total_harvested ← add_at c.total_harvested token_i amount
  let c' = record c { total_harvested = total_harvested }
  if token == near
      then ok (c', transfer u amount ∷ [])
      else ok (c', ft_transfer token u amount (farmed_sent u token_i amount) ∷ [])

-- `for i in i..i + n`, sending the farmed units as each farm token.
unfoldable pub withdraw_crop_from :
    ℕ → ℕ → AccountId → Balance → Contract → Result (Contract × List Promise)
withdraw_crop_from zero i user farmed_units c = ok (c, [])
withdraw_crop_from (suc n) i user farmed_units c = do
  rate ← index c.farm_token_rates i
  amount ← safe_mul farmed_units rate
  (c₁, ps) ← transfer_farmed_tokens user i amount c
  (c₂, qs) ← withdraw_crop_from n (i + 1) user farmed_units c₁
  ok (c₂, ps ++ qs)

-- `_withdraw_crop`
unfoldable pub send_crop : AccountId → Balance → Contract → Result (Contract × List Promise)
unfolding withdraw_crop_from
send_crop user farmed_units c =
    if farmed_units == 0
    then ok (c, [])
    else withdraw_crop_from (length c.farm_tokens) 0 user farmed_units c

-- Staked tokens that did not arrive are staked again.
unfoldable pub recover_staked : AccountId → ℕ → Balance → Contract → Result Contract
recover_staked user token_i amount c = do
  (v, c₁) ← recovered_vault user c
  staked ← add_at v.staked token_i amount
  (v', c₂) ← recompute_stake (record v { staked = staked }) c₁
  ok (put_vault user v' c₂)

-- Farmed tokens that did not arrive are kept for the user.
unfoldable pub recover_farmed : AccountId → ℕ → Balance → Contract → Result Contract
recover_farmed user token_i amount c = do
  (v, c₁) ← recovered_vault user c
  total_harvested ← sub_at c₁.total_harvested token_i amount
  farmed_recovered ← add_at v.farmed_recovered token_i amount
  ok (
      put_vault user (record v { farmed_recovered = farmed_recovered })
        (record c₁ { total_harvested = total_harvested }))

unfoldable pub recover_state : AccountId → Bool → ℕ → Balance → Contract → Result Contract
recover_state user is_staked token_i amount c =
    if is_staked then recover_staked user token_i amount c else recover_farmed user token_i amount c

-- `env::promise_result(0)`: whether the promise failed.
unfoldable pub has_failed : Env → Result Bool
has_failed env = elim (get_elem? env.promise_results 0) [
  | none ↦ panic "promise result index out of bounds"
  | some result ↦ elim result [
    | not_ready ↦ panic "internal error: entered unreachable code"
    | successful _ ↦ ok false
    | failed ↦ ok true
  ]
]

unfoldable pub transfer_staked_callback :
    Env → AccountId → ℕ → (amount fee : Balance) → Contract → Result Contract
unfolding recover_state
transfer_staked_callback env user token_i amount fee c = has_failed env >>= λ fails.
    if fails
    then (do
      _ ← index c.stake_tokens token_i
      full_amount ← add_u128 amount fee
      total_stake ← add_at c.total_stake token_i full_amount
      recover_state user true token_i full_amount (record c { total_stake = total_stake }))
    else (do
      fee_collected ← add_at c.fee_collected token_i fee
      ok (record c { fee_collected = fee_collected }))

-- The log line of the failing branch reads `self.stake_tokens[token_i]`.
unfoldable pub transfer_farmed_callback : Env → AccountId → ℕ → Balance → Contract → Result Contract
unfolding recover_state
transfer_farmed_callback env user token_i amount c = has_failed env >>= λ fails.
    if fails
    then (index c.stake_tokens token_i >>= λ _. recover_state user false token_i amount c)
    else ok c

unfoldable pub withdraw_nft_callback : Env → AccountId → String → Contract → Result Contract
withdraw_nft_callback env user cheddy c = has_failed env >>= λ fails.
    if fails
    then (do
      (v, c₁) ← recovered_vault user c
      (v', c₂) ← recompute_stake (record v { cheddy = cheddy }) c₁
      ok (put_vault user v' c₂))
    else ok c

unfoldable pub withdraw_fees_callback : Env → ℕ → Balance → Contract → Result Contract
withdraw_fees_callback env token_i amount c = has_failed env >>= λ fails.
    if fails
    then (do
      _ ← index c.stake_tokens token_i
      fee_collected ← add_at c.fee_collected token_i amount
      ok (record c { fee_collected = fee_collected }))
    else ok c

-- `for i in i..i + n`: every collected fee goes to the treasury.
unfoldable pub withdraw_fees_from : ℕ → ℕ → Contract → Result (Contract × List Promise)
withdraw_fees_from zero i c = ok (c, [])
withdraw_fees_from (suc n) i c = do
  fee ← index c.fee_collected i
  token ← index c.stake_tokens i
  let c₁ = if fee != 0 then record c { fee_collected = set c.fee_collected i 0 } else c
  let ps = if fee != 0 then ft_transfer token c.treasury fee (fees_sent i fee) ∷ [] else []
  (c₂, qs) ← withdraw_fees_from n (i + 1) c₁
  ok (c₂, ps ++ qs)

unfoldable pub withdraw_fees : Contract → Result (Contract × List Promise)
unfolding withdraw_fees_from
withdraw_fees c = withdraw_fees_from (length c.stake_tokens) 0 c
