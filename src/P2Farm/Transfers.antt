-- ===== src/P2Farm/Transfers.antt =====
-- Tokens sent back, CHEDDAR minted, and their callbacks (p2-token-staking-fixed/src/lib.rs).
use cheddar.Prelude.{
  ◌/◌, ◌&&◌, Bool, true, false, List, [], ◌∷◌, Option, none, some, length, get_elem?, Result, ok,
  panic, ◌>>=◌, ◌>>◌, expect, assert, leb, ◌==◌, ◌!=◌, if◌then◌else◌,
}
use cheddar.Prelude.Words.{mul_u128, add_u128, add_u64, checked_sub}
use cheddar.Near.{Env, AccountId, Balance, PromiseResult, not_ready, failed, successful}
use cheddar.Near.LookupMap.{get, remove}
use cheddar.P2Farm.State.{
  Vault, Contract, Promise, Callback, transfer, ft_transfer, ft_mint, followed, joined,
  storage_cost,
}
use cheddar.P2Farm.State
use cheddar.P2Farm.Rewards.{put_vault}

-- Staked tokens go back to the user less the fee, which is collected.
unfoldable pub return_tokens : AccountId → Balance → Contract → Result (Contract × Promise)
return_tokens user amount c = do
  product ← mul_u128 amount c.fee_rate
  let fee = product / 10_000
  fee_collected ← add_u128 c.fee_collected fee
  net ← checked_sub amount fee
  ok (
    record c { fee_collected = fee_collected },
    followed (ft_transfer c.staking_token user net)
        (State.Callback.return_tokens_callback user amount),
  )

-- `self.vaults.get(user)` with the amounts added, or a vault that is registered again.
unfoldable pub recovered_vault :
    AccountId → (cheddar staked : Balance) → Contract → Result (Vault × Contract)
recovered_vault user cheddar staked c = elim (get user c.vaults) [
  | some v ↦ do
    staked' ← add_u128 v.staked staked
    farmed' ← add_u128 v.farmed cheddar
    ok (record v { staked = staked'; farmed = farmed' }, c)
  | none ↦ do
    n ← add_u64 c.accounts_registered 1
    ok (
      record { reward_acc = c.reward_acc; staked = staked; farmed = cheddar },
      record c { accounts_registered = n },
    )
]

unfoldable pub recover_state : AccountId → (cheddar staked : Balance) → Contract → Result Contract
unfolding recovered_vault put_vault
recover_state user cheddar staked c = do
  (v, c') ← recovered_vault user cheddar staked c
  ok (put_vault user v c')

-- `env::promise_result(0)`: whether the promise failed.
unfoldable pub has_failed : Env → Result Bool
has_failed env = elim (get_elem? env.promise_results 0) [
  | none ↦ panic "promise result index out of bounds"
  | some result ↦ elim result [
    | not_ready ↦ panic "internal error: entered unreachable code"
    | successful _ ↦ ok false
    | failed ↦ ok true
  ]
]

unfoldable pub return_tokens_callback : Env → AccountId → Balance → Contract → Result Contract
unfolding recover_state
return_tokens_callback env user amount c =
    has_failed env >>= λ fails. if fails then recover_state user 0 amount c else ok c

unfoldable pub mint_callback : Env → AccountId → Balance → Contract → Result Contract
unfolding recover_state
mint_callback env user amount c = do
  assert (leb (length env.promise_results) 2) "E25: expected 1 promise result from withdraw"
  fails ← has_failed env
  if fails
      then recover_state user amount 0 c
      else (add_u128 c.total_harvested amount >>= λ t. ok (record c { total_harvested = t }))

-- `for i in 0..env::promise_results_count()`: no result is a failure.
unfoldable pub all_good : List PromiseResult → Bool
all_good [] = true
all_good (failed ∷ rs) = false
all_good (not_ready ∷ rs) = all_good rs
all_good (successful _ ∷ rs) = all_good rs

-- An empty account is taken off and its storage deposit goes back.
unfoldable pub return_storage : AccountId → Contract → Result (Contract × List Promise)
return_storage user c = elim (get user c.vaults) [
  | none ↦ ok (c, [])
  | some v ↦
      if v.staked == 0 && v.farmed == 0
      then (do
        n ← checked_sub c.accounts_registered 1
        ok (
          record c { vaults = remove user c.vaults; accounts_registered = n },
          transfer user storage_cost ∷ [],
        ))
      else ok (c, [])
]

unfoldable pub close_account : Env → AccountId → Contract → Result (Contract × List Promise)
unfolding all_good return_storage
close_account env user c =
    if all_good env.promise_results then return_storage user c else ok (c, [])

-- The mint, if there is any CHEDDAR, with its callback.
unfoldable pub mint_promise : AccountId → Balance → Contract → Option Promise
mint_promise a cheddar_amount c =
    if cheddar_amount != 0
    then some (
        followed (ft_mint c.cheddar a cheddar_amount)
          (State.Callback.mint_callback a cheddar_amount))
    else none

abbrev join : Option Promise → Promise → Promise
join none q = q
join (some p) q = joined p q

-- The tokens, if there are any, together with the mint.
unfoldable pub with_tokens :
    AccountId → Balance → Option Promise → Contract → Result (Contract × Option Promise)
unfolding return_tokens
with_tokens a tokens p c =
    if tokens != 0
    then (return_tokens a tokens c >>= λ (c', q). ok (c', some (join p q)))
    else ok (c, p)

abbrev as_list : Option Promise → List Promise
as_list none = []
as_list (some p) = p ∷ []

unfoldable pub mint_cheddar :
    AccountId
    → (cheddar_amount tokens : Balance) → Bool
    → Contract
    → Result (Contract × List Promise)
unfolding mint_promise with_tokens
mint_cheddar a cheddar_amount tokens close c =
    if cheddar_amount == 0 && tokens == 0 then ok (c, []) else do
      (c', p) ← with_tokens a tokens (mint_promise a cheddar_amount c) c
      if close
          then (expect p "called `Option::unwrap()` on a `None` value" >>= λ q.
              ok (c', followed q (State.Callback.close_account a) ∷ []))
          else ok (c', as_list p)
