-- ===== src/P4Farm/History.antt =====
-- Sequences of calls of the P4 farm (p4-farm-nft/src): each method and callback that changes the state
-- is a step.
pub mod Accounted
pub mod Backed
use cheddar.Prelude.{ℕ, ◌≡◌, Bool, Option, List, String, ok}
use cheddar.Near.{Env, AccountId, Balance}
use cheddar.P4Farm.State.{TokenId, ParseAccount, Contract, Promise}
use cheddar.P4Farm.Transfers.{
  transfer_staked_callback, transfer_farmed_callback, transfer_staked_cheddar_callback,
  withdraw_boost_nft_callback,
}
use cheddar.P4Farm.Staking.{
  close, unstake, withdraw_crop, withdraw_farmed_recovered, withdraw_boost_nft,
}
use cheddar.P4Farm.Setup.{setup_deposit_near, finalize_setup, set_active, set_start_end, stop}
use cheddar.P4Farm.Methods.{
  TransferInstruction, DepositMsg, ft_on_transfer, nft_on_transfer, storage_deposit,
  storage_unregister,
}

module _ (parse : ParseAccount) where
  -- A call that returned, from `c` to `c'`; the callbacks may come at any time, with any arguments.
  pub data Step (c c' : Contract) : Type 0 where
    receives_ft :
        (env : Env) (sender : AccountId) (x : Balance) (msg : DepositMsg) (unused : Balance)
        → ft_on_transfer env sender x msg c ≡ ok (c', unused)
        → Step c c'
    receives_nft :
        (env : Env) (owner : AccountId) (t : TokenId) (msg : TransferInstruction) (returned : Bool)
        → nft_on_transfer parse env owner t msg c ≡ ok (c', returned)
        → Step c c'
    unstakes :
        (env : Env) (nft : AccountId) (t : TokenId) (left : List TokenId) (p : List Promise)
        → unstake parse env nft t c ≡ ok (c', left, p)
        → Step c c'
    closes : (env : Env) (p : List Promise) → close parse env c ≡ ok (c', p) → Step c c'
    withdraws_crop : (env : Env) (p : List Promise) → withdraw_crop env c ≡ ok (c', p) → Step c c'
    withdraws_recovered :
        (env : Env) (token : AccountId) (p : List Promise)
        → withdraw_farmed_recovered env token c ≡ ok (c', p)
        → Step c c'
    withdraws_boost :
        (env : Env) (p : List Promise) → withdraw_boost_nft parse env c ≡ ok (c', p) → Step c c'
    deposits_near : (env : Env) → setup_deposit_near env c ≡ ok c' → Step c c'
    finalizes : (env : Env) → finalize_setup env c ≡ ok c' → Step c c'
    sets_active : (env : Env) (is_open : Bool) → set_active env is_open c ≡ ok c' → Step c c'
    sets_start_end : (env : Env) (start end : ℕ) → set_start_end env start end c ≡ ok c' → Step c c'
    stops : (env : Env) → stop env c ≡ ok c' → Step c c'
    registers :
        (env : Env) (who : Option AccountId) (p : List Promise)
        → storage_deposit env who c ≡ ok (c', p)
        → Step c c'
    unregisters :
        (env : Env) (force : Option Bool) (b : Bool) (p : List Promise)
        → storage_unregister parse env force c ≡ ok (c', b, p)
        → Step c c'
    staked_arrives :
        (env : Env) (user : AccountId) (i : ℕ) (t : TokenId)
        → transfer_staked_callback parse env user i t c ≡ ok c'
        → Step c c'
    farmed_arrives :
        (env : Env) (user : AccountId) (i : ℕ) (x : Balance)
        → transfer_farmed_callback parse env user i x c ≡ ok c'
        → Step c c'
    cheddar_arrives :
        (env : Env) (user : AccountId) (x : Balance)
        → transfer_staked_cheddar_callback parse env user x c ≡ ok c'
        → Step c c'
    boost_arrives :
        (env : Env) (user : AccountId) (ids : String) (i : ℕ)
        → withdraw_boost_nft_callback parse env user ids i c ≡ ok c'
        → Step c c'

  pub data Reach (c : Contract) : Contract → Type 0 where
    here : Reach c c
    next : {c₁ c₂ : Contract} → Reach c c₁ → Step c₁ c₂ → Reach c c₂
