-- ===== src/P1Fixed/History.antt =====
-- Sequences of calls of the fixed P1 pool, and what becomes of the staked NEAR.
use cheddar.Prelude.{
  ℕ, zero, suc, expect, Ensures-if, ◌&&◌, ◌-◌, ◌≤◌, ◌<◌, ◌≡◌, Bool, Option, none, some, List,
  String, ok, panic, arith, inl, inr, Result-cases, leb, Ensures, Ensures-bind, Ensures-at,
  Ensures-intro, assert,
}
use cheddar.Prelude.Words.{fit, checked_sub, add_u128, checked_sub_inv}
use cheddar.Near.{Env, AccountId, Balance}
use cheddar.Near.LookupMap.{get, All, All-nil, All-get, All-insert}
use cheddar.P1Fixed.State.{Vault, Contract, Promise, min_stake}
use cheddar.P1Fixed.Rewards.{ping, ping_at, get_vault, stake_more, unstake_part}
use cheddar.P1Fixed.Methods.{
  new, set_active, stake, staked_vault, close, unstake, withdraw_crop, recover_rewards,
  withdraw_callback, assert_one_yocto,
}

-- A call that returned, from `c` to `c'`.
pub data Step (c c' : Contract) : Type 0 where
  sets_active : (env : Env) (is_open : Bool) → set_active env is_open c ≡ ok c' → Step c c'
  stakes : (env : Env) (x : Balance) → stake env c ≡ ok (c', x) → Step c c'
  unstakes :
      (env : Env) (x left : Balance) (p : List Promise)
      → unstake env x c ≡ ok (c', left, p)
      → Step c c'
  closes : (env : Env) (x : Balance) (p : List Promise) → close env c ≡ ok (c', x, p) → Step c c'
  withdraws_crop :
      (env : Env) (x : Balance) (p : List Promise) → withdraw_crop env c ≡ ok (c', x, p) → Step c c'
  called_back :
      (env : Env) (a : AccountId) (x : Balance) → withdraw_callback env a x c ≡ ok c' → Step c c'

pub data Reach (c : Contract) : Contract → Type 0 where
  here : Reach c c
  next : {c₁ c₂ : Contract} → Reach c c₁ → Step c₁ c₂ → Reach c c₂

abbrev HasStake : Vault → Type 0
HasStake v = min_stake ≤ v.staked

-- Nothing is counted as staked, and every vault has a stake.
abbrev IsUncounted : Contract → Type 0
IsUncounted c = (c.total_stake ≡ 0) × All HasStake c.vaults

ping-staked :
    (env : Env) (v : Vault) (c : Contract) {r : Vault × Balance}
    → ping env v c ≡ ok r
    → r.0.staked ≡ v.staked
unfolding ping ping_at
ping-staked env v c {r} e = ground arith

get_vault_inv :
    (env : Env) (c : Contract) {v : Vault}
    → get_vault env c ≡ ok v
    → get env.predecessor_account_id c.vaults ≡ some v
unfolding get_vault
get_vault_inv env c {v} e = ground arith

close-never : (env : Env) (c : Contract) → IsUncounted c → Ensures (λ _. ⊥) (close env c)
unfolding close
close-never env c h =
    Ensures-bind (λ _. ⊥) (assert_one_yocto env) _
      λ _ _.
        Ensures-bind (λ _. ⊥) (get_vault env c) _
          λ v found.
            Ensures-bind (λ _. ⊥) (ping env v c) _
              λ (v1, f) pinged.
                Ensures-bind (λ _. ⊥)
                  (assert (leb v1.staked c.total_stake) "total_staked {} < vault.staked {}") _
                  λ _ covered. absurd (
                    ground (
                      arith,
                      h.0,
                      ping-staked env v c pinged,
                      All-get HasStake _ c.vaults h.1 (get_vault_inv env c found),
                    ))

close-panics : (env : Env) (c : Contract) → IsUncounted c → (m : String) × (close env c ≡ panic m)
close-panics env c h = elim (Result-cases (close env c)) [
  | inr refused ↦ refused
  | inl (r, went) ↦ absurd (Ensures-at (λ _. ⊥) (close env c) (close-never env c h) went)
]

unstake-panics :
    (env : Env) (x : Balance) (c : Contract)
    → IsUncounted c
    → 0 < x
    → Ensures (λ _. ⊥) (unstake env x c)
unfolding unstake
unstake-panics env x c h positive =
    let (m, refused) = close-panics env c h in
    Ensures-intro (λ _. ⊥) _ λ r went. grind (arith, h.0, refused, checked_sub_inv)

abbrev FirstUncounted {ℓ} : {B : Type ℓ} → Contract × B → Type 0
FirstUncounted r = IsUncounted r.0

staked_vault-HasStake :
    (env : Env) (x : Balance) (o : Option Vault) (c : Contract) {v : Vault}
    → staked_vault env x o c ≡ ok v
    → min_stake ≤ x
    → HasStake v
unfolding staked_vault stake_more add_u128 fit
staked_vault-HasStake env x none c {v} e enough = ground arith
staked_vault-HasStake env x (some u) c {v} e enough = ground arith

stake-IsUncounted :
    (env : Env) (c : Contract) → IsUncounted c → Ensures FirstUncounted (stake env c)
unfolding stake
stake-IsUncounted env c h =
    Ensures-bind FirstUncounted (assert c.is_active "Farming is not open") _ λ _ _.
      Ensures-bind FirstUncounted
        (assert (leb min_stake env.attached_deposit) "E01: min stake amount is 0.01 NEAR") _
        λ _ enough.
          Ensures-bind FirstUncounted
            (staked_vault env env.attached_deposit (get env.predecessor_account_id c.vaults) c) _
            λ v staked. (
              h.0,
              All-insert HasStake _ v c.vaults h.1
                  (staked_vault-HasStake env _ _ c staked (ground (arith, enough))),
            )

unstake_part-HasStake :
    (env : Env) (x : Balance) (v : Vault) (c : Contract) {w : Vault}
    → unstake_part env x v c ≡ ok w
    → HasStake w
unfolding unstake_part
unstake_part-HasStake env x v c {w} e = ground arith

abbrev PaidUncounted : Contract × Balance × List Promise → Type 0
PaidUncounted r = IsUncounted r.0

unstake_nothing-IsUncounted :
    (env : Env) (c : Contract) → IsUncounted c → Ensures PaidUncounted (unstake env 0 c)
unfolding unstake
unstake_nothing-IsUncounted env c h =
    let (m, refused) = close-panics env c h in
    Ensures-bind PaidUncounted (assert_one_yocto env) _ λ _ _.
      Ensures-bind PaidUncounted (get_vault env c) _ λ v found.
        Ensures-if PaidUncounted (leb min_stake v.staked && leb (v.staked - min_stake) 0) _ _
          (λ _. ground (arith, refused))
          (λ _. Ensures-bind PaidUncounted (unstake_part env 0 v c) _ λ w left.
            Ensures-bind PaidUncounted (checked_sub c.total_stake 0) _ λ total same. (
              ground (arith, h.0, checked_sub_inv _ _ same),
              All-insert HasStake _ w c.vaults h.1 (unstake_part-HasStake env 0 v c left),
            ))

withdraw_crop-IsUncounted :
    (env : Env) (c : Contract) → IsUncounted c → Ensures PaidUncounted (withdraw_crop env c)
unfolding withdraw_crop
withdraw_crop-IsUncounted env c h = Ensures-bind PaidUncounted (get_vault env c) _ λ v found.
    Ensures-bind PaidUncounted (ping env v c) _ λ (v1, f) pinged. (
      h.0,
      All-insert HasStake _ _ c.vaults h.1 (
          ground (
            arith,
            ping-staked env v c pinged,
            All-get HasStake _ c.vaults h.1 (get_vault_inv env c found),
          )),
    )

recover_rewards-IsUncounted :
    (a : AccountId) (x : Balance) (c : Contract)
    → IsUncounted c
    → Ensures IsUncounted (recover_rewards a x c)
unfolding recover_rewards
recover_rewards-IsUncounted a x c h =
    Ensures-bind IsUncounted (expect (get a c.vaults) "E10: account not found") _ λ v found.
      Ensures-bind IsUncounted (add_u128 v.rewards x) _ λ rewards _. (
        h.0,
        All-insert HasStake _ _ c.vaults h.1 (
            let here : get a c.vaults ≡ some v = ground (arith, found) in
            All-get HasStake a c.vaults h.1 here),
      )

Step-IsUncounted : {c c' : Contract} → Step c c' → IsUncounted c → IsUncounted c'
unfolding set_active withdraw_callback
Step-IsUncounted (Step.sets_active env b e) h = ground (arith, h)
Step-IsUncounted {c} (Step.stakes env x e) h =
    Ensures-at FirstUncounted _ (stake-IsUncounted env c h) e
Step-IsUncounted {c} (Step.unstakes env zero left p e) h =
    Ensures-at PaidUncounted _ (unstake_nothing-IsUncounted env c h) e
Step-IsUncounted {c} (Step.unstakes env (suc x) left p e) h =
    absurd (Ensures-at (λ _. ⊥) _ (unstake-panics env (suc x) c h (omega arith)) e)
Step-IsUncounted {c} (Step.closes env x p e) h =
    let (m, refused) = close-panics env c h in absurd (ground (arith, refused))
Step-IsUncounted {c} (Step.withdraws_crop env x p e) h =
    Ensures-at PaidUncounted _ (withdraw_crop-IsUncounted env c h) e
Step-IsUncounted {c} (Step.called_back env a x e) h =
    ground (arith, recover_rewards-IsUncounted a x c h)

Reach-IsUncounted : {c c' : Contract} → IsUncounted c → Reach c c' → IsUncounted c'
Reach-IsUncounted h Reach.here = h
Reach-IsUncounted h (Reach.next r s) = Step-IsUncounted s (Reach-IsUncounted h r)

-- In every state that the pool reaches from its creation, by any sequence of calls: total_stake is zero, and
-- every call that should give staked NEAR back, a closing or the unstaking of a positive amount, panics.
pub stakes-locked :
    (owner_id cheddar_id : AccountId) (rate start end : ℕ) {c c' : Contract} (env : Env)
    (x : Balance)
    → new owner_id cheddar_id rate start end ≡ ok c
    → Reach c c'
    → 0 < x
    → (c'.total_stake ≡ 0)
      × ((m : String) × (close env c' ≡ panic m))
      × ((m : String) × (unstake env x c' ≡ panic m))
unfolding new
stakes-locked owner_id cheddar_id rate start end {c} {c'} env x e r positive =
    let h = Reach-IsUncounted (ground (arith, All-nil HasStake)) r in
    (
      h.0,
      close-panics env c' h,
      elim (Result-cases (unstake env x c')) [
        | inr refused ↦ refused
        | inl (d, went) ↦ absurd (Ensures-at (λ _. ⊥) _ (unstake-panics env x c' h positive) went)
      ],
    )
