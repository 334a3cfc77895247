-- ===== src/P2Farm/History/Totals.antt =====
-- The total stake of the P2 farm and the stakes of its vaults.
use cheddar.Prelude.{
  ℕ, ◌+◌, ◌≡◌, ◌==◌, Bool, true, false, some, List, ok, arith, leb, assert, Ensures, Ensures-bind,
  Ensures-if, Ensures-at, Ensures-intro, length,
}
use cheddar.Prelude.Words.{checked_sub_inv, add_u128_inv, add_u128}
use cheddar.Near.{Env, AccountId, Balance}
use cheddar.Near.LookupMap.{get, contains_key, sum_by, sum_by-nil, sum_by-insert, sum_by-remove}
use cheddar.P2Farm.State.{Vault, Contract, Promise}
use cheddar.P2Farm.Rewards.{
  ping, ping_all, update_reward_acc, get_vault, put_vault, assert_is_active, assert_one_yocto,
}
use cheddar.P2Farm.Transfers.{
  return_tokens, mint_cheddar, with_tokens, recover_state, recovered_vault, has_failed,
  return_tokens_callback, mint_callback, return_storage, close_account,
}
use cheddar.P2Farm.Methods.{
  new, ft_on_transfer, unstake, unstake_part, close, withdraw_crop, withdraw_fee, set_active,
  set_end, restart, storage_deposit, storage_unregister, create_account,
}
use cheddar.P2Farm.History.{Step, Reach}

abbrev pub staked_of : Vault → Balance
staked_of v = v.staked

-- The stakes of all vaults.
abbrev pub stakes : Contract → ℕ
stakes c = sum_by staked_of c.vaults

-- Neither the vaults nor the total have changed.
abbrev pub SameStakes : Contract → Contract → Type 0
SameStakes c c' = (c'.vaults ≡ c.vaults) × (c'.total_stake ≡ c.total_stake)

pub ping_all-SameStakes :
    (env : Env) (v : Vault) (c : Contract) {r : Vault × Balance × Contract}
    → ping_all env v c ≡ ok r
    → (r.0.staked ≡ v.staked) × SameStakes c r.2
unfolding ping_all ping update_reward_acc
ping_all-SameStakes env v c {r} e = ground arith

return_tokens-SameStakes :
    (a : AccountId) (x : Balance) (c : Contract) {r : Contract × Promise}
    → return_tokens a x c ≡ ok r
    → SameStakes c r.0
unfolding return_tokens
return_tokens-SameStakes a x c {r} e = ground arith

mint_cheddar-SameStakes :
    (a : AccountId) (x tokens : Balance) (close : Bool) (c : Contract) {r : Contract × List Promise}
    → mint_cheddar a x tokens close c ≡ ok r
    → SameStakes c r.0
unfolding mint_cheddar with_tokens
mint_cheddar-SameStakes a x tokens close c {r} e = grind (arith, return_tokens-SameStakes)

-- The sum of the stakes is the total and what was lost of it.
abbrev pub IsTotalled : ℕ → Contract → Type 0
IsTotalled lost c = stakes c ≡ c.total_stake + lost

abbrev pub FirstTotalled {ℓ} : {B : Type ℓ} → ℕ → Contract × B → Type 0
FirstTotalled lost r = IsTotalled lost r.0

get_vault_inv :
    (a : AccountId) (c : Contract) {v : Vault} → get_vault c a ≡ ok v → get a c.vaults ≡ some v
unfolding get_vault
get_vault_inv a c {v} e = ground arith

ft_on_transfer-IsTotalled :
    (env : Env) (sender : AccountId) (x lost : ℕ) (c : Contract)
    → IsTotalled lost c
    → Ensures (FirstTotalled lost) (ft_on_transfer env sender x c)
unfolding ft_on_transfer put_vault
ft_on_transfer-IsTotalled env sender x lost c h =
    Ensures-intro (FirstTotalled lost) _
      λ r e. grind (arith, get_vault_inv, ping_all-SameStakes, add_u128_inv, sum_by-insert)

close-IsTotalled :
    (env : Env) (lost : ℕ) (c : Contract)
    → IsTotalled lost c
    → Ensures (FirstTotalled lost) (close env c)
unfolding close put_vault
close-IsTotalled env lost c h = Ensures-intro (FirstTotalled lost) _ λ r e. grind (
  arith, get_vault_inv, ping_all-SameStakes, checked_sub_inv, mint_cheddar-SameStakes,
  sum_by-insert, sum_by-remove,
)

unstake_part-IsTotalled :
    (env : Env) (a : AccountId) (x lost : ℕ) (v : Vault) (c : Contract)
    {r : Contract × Balance × List Promise}
    → get a c.vaults ≡ some v
    → IsTotalled lost c
    → unstake_part env a x v c ≡ ok r
    → IsTotalled lost r.0
unfolding unstake_part put_vault
unstake_part-IsTotalled env a x lost v c {r} found h e =
    grind (arith, ping_all-SameStakes, checked_sub_inv, return_tokens-SameStakes, sum_by-insert)

abbrev UnstakeTotalled : ℕ → Contract × Balance × List Promise → Type 0
UnstakeTotalled lost r = IsTotalled lost r.0

unstake-IsTotalled :
    (env : Env) (x lost : ℕ) (c : Contract)
    → IsTotalled lost c
    → Ensures (UnstakeTotalled lost) (unstake env x c)
unfolding unstake
unstake-IsTotalled env x lost c h =
    let a = env.predecessor_account_id in
    Ensures-bind (UnstakeTotalled lost) (assert_is_active c) _ λ _ _.
      Ensures-bind (UnstakeTotalled lost) (assert_one_yocto env) _ λ _ _.
        Ensures-bind (UnstakeTotalled lost) (get_vault c a) _ λ v found.
          Ensures-bind (UnstakeTotalled lost)
            (assert (leb x v.staked) "E30: not enough staked tokens") _
            λ _ _.
              Ensures-if (UnstakeTotalled lost) (x == v.staked) _ _
                (λ _. Ensures-bind (UnstakeTotalled lost) (close env c) _ λ r closed.
                  Ensures-at (FirstTotalled lost) _ (close-IsTotalled env lost c h) closed)
                (λ _.
                  Ensures-intro (UnstakeTotalled lost) _
                    λ r e. unstake_part-IsTotalled env a x lost v c (get_vault_inv a c found) h e)

recover_state-IsTotalled :
    (a : AccountId) (x tokens lost : ℕ) (c : Contract) {c' : Contract}
    → IsTotalled lost c
    → recover_state a x tokens c ≡ ok c'
    → IsTotalled (lost + tokens) c'
unfolding recover_state recovered_vault put_vault
recover_state-IsTotalled a x tokens lost c {c'} h e = grind (arith, add_u128_inv, sum_by-insert)

mint_callback-IsTotalled :
    (env : Env) (a : AccountId) (x lost : ℕ) (c : Contract)
    → IsTotalled lost c
    → Ensures (IsTotalled (lost + 0)) (mint_callback env a x c)
unfolding mint_callback
mint_callback-IsTotalled env a x lost c h =
    Ensures-bind (IsTotalled (lost + 0))
      (assert (leb (length env.promise_results) 2) "E25: expected 1 promise result from withdraw") _
      λ _ _. Ensures-bind (IsTotalled (lost + 0)) (has_failed env) _ λ fails _.
        Ensures-if (IsTotalled (lost + 0)) fails _ _
          (λ _.
            Ensures-intro (IsTotalled (lost + 0)) _
              λ c' e. recover_state-IsTotalled a x 0 lost c {c' = c'} h e)
          (λ _.
            Ensures-bind (IsTotalled (lost + 0)) (add_u128 c.total_harvested x) _
              λ t _. ground (arith, h))

Step-IsTotalled :
    {c c' : Contract} {n : ℕ} (lost : ℕ)
    → Step c c' n
    → IsTotalled lost c
    → IsTotalled (lost + n) c'
unfolding unstake withdraw_crop withdraw_fee set_active set_end restart storage_deposit
    storage_unregister create_account return_tokens_callback mint_callback close_account
    return_storage put_vault contains_key
Step-IsTotalled {c} lost (Step.receives_ft env sender x unused e) h =
    ground
      (arith, Ensures-at (FirstTotalled lost) _ (ft_on_transfer-IsTotalled env sender x lost c h) e)
Step-IsTotalled {c} {c'} lost (Step.unstakes env x left p e) h =
    ground (arith, Ensures-at (UnstakeTotalled lost) _ (unstake-IsTotalled env x lost c h) e)
Step-IsTotalled {c} lost (Step.closes env p e) h =
    ground (arith, Ensures-at (FirstTotalled lost) _ (close-IsTotalled env lost c h) e)
Step-IsTotalled {c} {c'} lost (Step.withdraws_crop env p e) h =
    grind (arith, get_vault_inv, ping_all-SameStakes, mint_cheddar-SameStakes, sum_by-insert)
Step-IsTotalled {c} {c'} lost (Step.withdraws_fee p e) h = ground arith
Step-IsTotalled {c} {c'} lost (Step.sets_active env b e) h = ground arith
Step-IsTotalled {c} {c'} lost (Step.sets_end env end e) h = ground arith
Step-IsTotalled {c} {c'} lost (Step.restarts env start end rate e) h = ground arith
Step-IsTotalled {c} {c'} lost (Step.registers env who p e) h = grind (arith, sum_by-insert)
Step-IsTotalled {c} {c'} lost (Step.unregisters env force b p e) h =
    ground (arith, close-IsTotalled env lost c h)
Step-IsTotalled {c} {c'} lost (Step.returns env user x true f e) h =
    recover_state-IsTotalled user 0 x lost c {c' = c'} h (ground arith)
Step-IsTotalled {c} {c'} lost (Step.returns env user x false f e) h = ground arith
Step-IsTotalled {c} {c'} lost (Step.mints env user x e) h =
    Ensures-at (IsTotalled (lost + 0)) _ (mint_callback-IsTotalled env user x lost c h) e
Step-IsTotalled {c} {c'} lost (Step.closed env user p e) h = grind (arith, sum_by-remove)

Reach-IsTotalled : {c c' : Contract} {n : ℕ} → IsTotalled 0 c → Reach c c' n → IsTotalled n c'
Reach-IsTotalled h Reach.here = h
Reach-IsTotalled h (Reach.next {m = m} r s) = Step-IsTotalled m s (Reach-IsTotalled h r)

-- In every state that the farm reaches from its creation, by any sequence of calls with any callers,
-- arguments, timestamps and answers: the stakes of the vaults are together the total stake and what was
-- restaked of tokens whose return had failed.
pub stakes-eq-total :
    (owner_id cheddar staked_token : AccountId) (start end rate fee_rate : ℕ) (treasury : AccountId)
    {c c' : Contract} {lost : ℕ}
    → new owner_id cheddar staked_token start end rate fee_rate treasury ≡ ok c
    → Reach c c' lost
    → stakes c' ≡ c'.total_stake + lost
unfolding new
stakes-eq-total owner_id cheddar staked_token start end rate fee_rate treasury {c} e r =
    Reach-IsTotalled (ground (arith, sum_by-nil staked_of)) r
