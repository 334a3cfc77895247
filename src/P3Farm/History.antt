-- ===== src/P3Farm/History.antt =====
-- Sequences of calls of the P3 farm: each method that changes the state is a step, but for
-- admin_set_rates, which changes what the units are.
pub mod Counted
use cheddar.Prelude.{ℕ, ◌≡◌, Bool, Option, List, String, ok}
use cheddar.Near.{Env, AccountId, Balance}
use cheddar.P3Farm.State.{Contract, Promise}
use cheddar.P3Farm.Transfers.{
  transfer_staked_callback, transfer_farmed_callback, withdraw_nft_callback, withdraw_fees_callback,
  withdraw_fees,
}
use cheddar.P3Farm.Staking.{close, unstake, withdraw_crop, withdraw_farmed_recovered}
use cheddar.P3Farm.Setup.{
  setup_deposit_near, finalize_setup, set_active, set_start_end, admin_withdraw,
}
use cheddar.P3Farm.Methods.{
  TransferMsg, ft_on_transfer, stake_near, nft_on_transfer, withdraw_nft, storage_deposit,
  storage_unregister,
}

-- A call that returned, from `c` to `c'`; the callbacks may come at any time, with any arguments.
pub data Step (c c' : Contract) : Type 0 where
  receives_ft :
      (env : Env) (sender : AccountId) (x : Balance) (msg : TransferMsg) (unused : Balance)
      → ft_on_transfer env sender x msg c ≡ ok (c', unused)
      → Step c c'
  stakes_near : (env : Env) → stake_near env c ≡ ok c' → Step c c'
  receives_nft :
      (env : Env) (owner : AccountId) (token_id : String) (returned : Bool)
      → nft_on_transfer env owner token_id c ≡ ok (c', returned)
      → Step c c'
  withdraws_nft :
      (env : Env) (receiver : AccountId) (p : List Promise)
      → withdraw_nft env receiver c ≡ ok (c', p)
      → Step c c'
  unstakes :
      (env : Env) (token : AccountId) (x left : Balance) (p : List Promise)
      → unstake env token x c ≡ ok (c', left, p)
      → Step c c'
  closes : (env : Env) (p : List Promise) → close env c ≡ ok (c', p) → Step c c'
  withdraws_crop : (env : Env) (p : List Promise) → withdraw_crop env c ≡ ok (c', p) → Step c c'
  withdraws_recovered :
      (env : Env) (token : AccountId) (p : List Promise)
      → withdraw_farmed_recovered env token c ≡ ok (c', p)
      → Step c c'
  deposits_near : (env : Env) → setup_deposit_near env c ≡ ok c' → Step c c'
  finalizes : (env : Env) → finalize_setup env c ≡ ok c' → Step c c'
  sets_active : (env : Env) (is_open : Bool) → set_active env is_open c ≡ ok c' → Step c c'
  sets_start_end : (env : Env) (start end : ℕ) → set_start_end env start end c ≡ ok c' → Step c c'
  withdraws_admin :
      (env : Env) (token : AccountId) (x : Balance) (p : List Promise)
      → admin_withdraw env token x c ≡ ok (c', p)
      → Step c c'
  withdraws_fees : (p : List Promise) → withdraw_fees c ≡ ok (c', p) → Step c c'
  registers :
      (env : Env) (who : Option AccountId) (p : List Promise)
      → storage_deposit env who c ≡ ok (c', p)
      → Step c c'
  unregisters :
      (env : Env) (force : Option Bool) (b : Bool) (p : List Promise)
      → storage_unregister env force c ≡ ok (c', b, p)
      → Step c c'
  staked_arrives :
      (env : Env) (user : AccountId) (i : ℕ) (x fee : Balance)
      → transfer_staked_callback env user i x fee c ≡ ok c'
      → Step c c'
  farmed_arrives :
      (env : Env) (user : AccountId) (i : ℕ) (x : Balance)
      → transfer_farmed_callback env user i x c ≡ ok c'
      → Step c c'
  nft_arrives :
      (env : Env) (user : AccountId) (cheddy : String)
      → withdraw_nft_callback env user cheddy c ≡ ok c'
      → Step c c'
  fees_arrive :
      (env : Env) (i : ℕ) (x : Balance) → withdraw_fees_callback env i x c ≡ ok c' → Step c c'

pub data Reach (c : Contract) : Contract → Type 0 where
  here : Reach c c
  next : {c₁ c₂ : Contract} → Reach c c₁ → Step c₁ c₂ → Reach c c₂
