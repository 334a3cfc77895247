-- ===== src/P1Dyn/History.antt =====
-- Sequences of calls of the dynamic P1 pool, and its total against the stakes.
use cheddar.Prelude.{
  ℕ, ◌+◌, ◌-◌, ◌≡◌, Bool, List, ok, arith, leb, ltb, assert, Ensures, Ensures-bind, Ensures-if,
  Ensures-intro, Ensures-at,
}
use cheddar.Prelude.Words.{checked_sub, add_u128, add_u128_inv, checked_sub_inv}
use cheddar.Near.{Env, AccountId, Balance}
use cheddar.Near.LookupMap.{get, sum_by, weight, sum_by-nil, sum_by-insert, sum_by-remove}
use cheddar.P1Dyn.State.{Vault, Contract, Promise, min_stake}
use cheddar.P1Dyn.Rewards.{
  round_from_unix, ping, ping_at, get_vault, get_vault_or_default, save_vault, is_empty, stake_more,
  unstake_part,
}
use cheddar.P1Dyn.Methods.{
  new, stake, staked_vault, close, unstake, withdraw_crop, set_active, set_start_end, farm_yocto,
  recover_rewards, mint_callback, assert_one_yocto,
}

-- A call that returned, from `c` to `c'`.
pub data Step (c c' : Contract) : Type 0 where
  stakes : (env : Env) (x : Balance) → stake env c ≡ ok (c', x) → Step c c'
  unstakes : (env : Env) (x : Balance) (p : List Promise) → unstake env x c ≡ ok (c', p) → Step c c'
  closes : (env : Env) (p : List Promise) → close env c ≡ ok (c', p) → Step c c'
  withdraws_crop : (env : Env) (p : List Promise) → withdraw_crop env c ≡ ok (c', p) → Step c c'
  sets_active : (env : Env) (is_open : Bool) → set_active env is_open c ≡ ok c' → Step c c'
  sets_start_end : (env : Env) (start end : ℕ) → set_start_end env start end c ≡ ok c' → Step c c'
  farms_yocto : (env : Env) (p : List Promise) → farm_yocto env c ≡ ok (c', p) → Step c c'
  called_back :
      (env : Env) (a : AccountId) (x : Balance) → mint_callback env a x c ≡ ok c' → Step c c'

pub data Reach (c : Contract) : Contract → Type 0 where
  here : Reach c c
  next : {c₁ c₂ : Contract} → Reach c c₁ → Step c₁ c₂ → Reach c c₂

abbrev pub staked_of : Vault → Balance
staked_of v = v.staked

-- The stakes of all vaults.
abbrev pub all_stakes : Contract → ℕ
all_stakes c = sum_by staked_of c.vaults

abbrev IsTotalled : Contract → Type 0
IsTotalled c = all_stakes c ≡ c.total_stake

ping-staked :
    (env : Env) (v : Vault) (c : Contract) {r : Vault × Balance}
    → ping env v c ≡ ok r
    → r.0.staked ≡ v.staked
unfolding ping ping_at
ping-staked env v c {r} e = ground arith

-- The stake that the map has for an account is that of its vault, or none.
get_vault_or_default-weight :
    (a : AccountId) (c : Contract)
    → (get_vault_or_default a c).staked ≡ weight staked_of (get a c.vaults)
unfolding get_vault_or_default
get_vault_or_default-weight a c = ground arith

get_vault-weight :
    (a : AccountId) (c : Contract) {v : Vault}
    → get_vault a c ≡ ok v
    → weight staked_of (get a c.vaults) ≡ v.staked
unfolding get_vault
get_vault-weight a c {v} e = ground arith

save_vault-all_stakes :
    (a : AccountId) (v : Vault) (c : Contract)
    → (all_stakes (save_vault a v c) + weight staked_of (get a c.vaults) ≡ all_stakes c + v.staked)
      × ((save_vault a v c).total_stake ≡ c.total_stake)
unfolding save_vault is_empty
save_vault-all_stakes a v c =
    ground (arith, sum_by-insert staked_of a v c.vaults, sum_by-remove staked_of a c.vaults)

staked_vault-staked :
    (env : Env) (x : Balance) (v : Vault) (c : Contract) {w : Vault}
    → staked_vault env x v c ≡ ok w
    → w.staked ≡ v.staked + x
unfolding staked_vault stake_more
staked_vault-staked env x v c {w} e = grind (arith, ping-staked, add_u128_inv)

abbrev FirstTotalled {ℓ} : {B : Type ℓ} → Contract × B → Type 0
FirstTotalled r = IsTotalled r.0

stake-IsTotalled : (env : Env) (c : Contract) → IsTotalled c → Ensures FirstTotalled (stake env c)
unfolding stake
stake-IsTotalled env c h =
    let a = env.predecessor_account_id in
    Ensures-bind FirstTotalled (assert c.is_active "Farming is not open") _ λ _ _.
      Ensures-bind FirstTotalled
        (assert (leb min_stake env.attached_deposit) "E01: min stake amount is 0.01 NEAR") _
        λ _ _.
          Ensures-bind FirstTotalled (add_u128 c.total_stake env.attached_deposit) _ λ total sum.
            Ensures-bind FirstTotalled
              (staked_vault env env.attached_deposit (get_vault_or_default a c)
                (record c { total_stake = total }))
              _
              λ v staked. ground (
                arith,
                h,
                add_u128_inv _ _ sum,
                staked_vault-staked env _ _ _ staked,
                get_vault_or_default-weight a c,
                save_vault-all_stakes a v (record c { total_stake = total }),
              )

close-IsTotalled :
    (env : Env) (c : Contract) {r : Contract × List Promise}
    → close env c ≡ ok r
    → IsTotalled c
    → IsTotalled r.0
unfolding close
close-IsTotalled env c {r} e h =
    grind (arith, ping-staked, get_vault-weight, sum_by-remove, checked_sub_inv)

unstake_part-staked :
    (env : Env) (x : Balance) (v : Vault) (c : Contract) {w : Vault}
    → unstake_part env x v c ≡ ok w
    → w.staked + x ≡ v.staked
unfolding unstake_part
unstake_part-staked env x v c {w} e = grind (arith, ping-staked, checked_sub_inv)

unstake-IsTotalled :
    (env : Env) (x : Balance) (c : Contract)
    → IsTotalled c
    → Ensures FirstTotalled (unstake env x c)
unfolding unstake
unstake-IsTotalled env x c h =
    let a = env.predecessor_account_id in
    let v = get_vault_or_default a c in
    Ensures-bind FirstTotalled (assert_one_yocto env) _ λ _ _.
      Ensures-bind FirstTotalled (assert (ltb 0 x) "Invalid amount") _ λ _ _.
        Ensures-bind FirstTotalled
          (assert (leb x v.staked) "Invalid amount, you have not that much staked") _
          λ _ _.
            Ensures-if FirstTotalled (leb (v.staked - x) min_stake) _ _
              (λ _. Ensures-intro FirstTotalled _ λ r closed. close-IsTotalled env c closed h)
              (λ _. Ensures-bind FirstTotalled (checked_sub c.total_stake x) _ λ total less.
                Ensures-bind FirstTotalled (unstake_part env x v (record c { total_stake = total }))
                  _
                  λ w left. ground (
                    arith,
                    h,
                    checked_sub_inv _ _ less,
                    unstake_part-staked env x _ _ left,
                    get_vault_or_default-weight a c,
                    save_vault-all_stakes a w (record c { total_stake = total }),
                  ))

withdraw_crop-IsTotalled :
    (env : Env) (c : Contract) {r : Contract × List Promise}
    → withdraw_crop env c ≡ ok r
    → IsTotalled c
    → IsTotalled r.0
unfolding withdraw_crop
withdraw_crop-IsTotalled env c {r} e h =
    grind (arith, ping-staked, get_vault-weight, save_vault-all_stakes)

recover_rewards-IsTotalled :
    (env : Env) (a : AccountId) (x : Balance) (c : Contract) {c' : Contract}
    → recover_rewards env a x c ≡ ok c'
    → IsTotalled c
    → IsTotalled c'
unfolding recover_rewards
recover_rewards-IsTotalled env a x c {c'} e h =
    grind (arith, ping-staked, get_vault_or_default-weight, save_vault-all_stakes)

Step-IsTotalled : {c c' : Contract} → Step c c' → IsTotalled c → IsTotalled c'
unfolding set_active set_start_end farm_yocto mint_callback
Step-IsTotalled {c} (Step.stakes env x e) h =
    Ensures-at FirstTotalled _ (stake-IsTotalled env c h) e
Step-IsTotalled {c} (Step.unstakes env x p e) h =
    Ensures-at FirstTotalled _ (unstake-IsTotalled env x c h) e
Step-IsTotalled {c} (Step.closes env p e) h = close-IsTotalled env c e h
Step-IsTotalled {c} (Step.withdraws_crop env p e) h = withdraw_crop-IsTotalled env c e h
Step-IsTotalled {c} {c'} (Step.sets_active env b e) h = ground arith
Step-IsTotalled {c} {c'} (Step.sets_start_end env start end e) h = ground arith
Step-IsTotalled {c} {c'} (Step.farms_yocto env p e) h = ground arith
Step-IsTotalled {c} {c'} (Step.called_back env a x e) h =
    grind (arith, recover_rewards-IsTotalled env a x c)

Reach-IsTotalled : {c c' : Contract} → IsTotalled c → Reach c c' → IsTotalled c'
Reach-IsTotalled h Reach.here = h
Reach-IsTotalled h (Reach.next r s) = Step-IsTotalled s (Reach-IsTotalled h r)

-- In every state that the pool reaches from its creation, by any sequence of calls with any callers,
-- arguments, timestamps and answers, total_stake is the sum of the stakes of the vaults.
pub total_stake-eq-sum :
    (owner_id cheddar_id : AccountId) (rate start end : ℕ) {c c' : Contract}
    → new owner_id cheddar_id rate start end ≡ ok c
    → Reach c c'
    → all_stakes c' ≡ c'.total_stake
unfolding new round_from_unix
total_stake-eq-sum owner_id cheddar_id rate start end {c} e r =
    Reach-IsTotalled (ground (arith, sum_by-nil staked_of)) r
