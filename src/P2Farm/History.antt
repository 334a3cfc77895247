-- ===== src/P2Farm/History.antt =====
-- Sequences of calls of the P2 farm, with the staked tokens whose return has failed.
pub mod Totals
use cheddar.Prelude.{ℕ, ◌+◌, ◌≡◌, Bool, true, false, Option, List, ok, if◌then◌else◌}
use cheddar.Near.{Env, AccountId, Balance}
use cheddar.P2Farm.State.{Contract, Promise}
use cheddar.P2Farm.Transfers.{return_tokens_callback, mint_callback, close_account, has_failed}
use cheddar.P2Farm.Methods.{
  ft_on_transfer, unstake, close, withdraw_crop, withdraw_fee, set_active, set_end, restart,
  storage_deposit, storage_unregister,
}

-- A call that returned, from `c` to `c'`, and what it restakes of tokens that did not arrive.
pub data Step (c c' : Contract) : ℕ → Type 0 where
  receives_ft :
      (env : Env) (sender : AccountId) (x unused : Balance)
      → ft_on_transfer env sender x c ≡ ok (c', unused)
      → Step c c' 0
  unstakes :
      (env : Env) (x left : Balance) (p : List Promise)
      → unstake env x c ≡ ok (c', left, p)
      → Step c c' 0
  closes : (env : Env) (p : List Promise) → close env c ≡ ok (c', p) → Step c c' 0
  withdraws_crop : (env : Env) (p : List Promise) → withdraw_crop env c ≡ ok (c', p) → Step c c' 0
  withdraws_fee : (p : List Promise) → withdraw_fee c ≡ ok (c', p) → Step c c' 0
  sets_active : (env : Env) (is_open : Bool) → set_active env is_open c ≡ ok c' → Step c c' 0
  sets_end : (env : Env) (end : ℕ) → set_end env end c ≡ ok c' → Step c c' 0
  restarts : (env : Env) (start end rate : ℕ) → restart env start end rate c ≡ ok c' → Step c c' 0
  registers :
      (env : Env) (who : Option AccountId) (p : List Promise)
      → storage_deposit env who c ≡ ok (c', p)
      → Step c c' 0
  unregisters :
      (env : Env) (force : Option Bool) (b : Bool) (p : List Promise)
      → storage_unregister env force c ≡ ok (c', b, p)
      → Step c c' 0
  returns :
      (env : Env) (user : AccountId) (x : Balance) (fails : Bool)
      → has_failed env ≡ ok fails
      → return_tokens_callback env user x c ≡ ok c'
      → Step c c' (if fails then x else 0)
  mints :
      (env : Env) (user : AccountId) (x : Balance)
      → mint_callback env user x c ≡ ok c'
      → Step c c' 0
  closed :
      (env : Env) (user : AccountId) (p : List Promise)
      → close_account env user c ≡ ok (c', p)
      → Step c c' 0

pub data Reach (c : Contract) : Contract → ℕ → Type 0 where
  here : Reach c c 0
  next : {c₁ c₂ : Contract} {m n : ℕ} → Reach c c₁ m → Step c₁ c₂ n → Reach c c₂ (m + n)
