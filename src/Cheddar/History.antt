-- ===== src/Cheddar/History.antt =====
-- Sequences of calls of the token contract: each method that changes the state is a step.
pub mod Conservation
use cheddar.Prelude.{ℕ, ◌≡◌, Bool, Option, List, String, ok}
use cheddar.Near.{Env, AccountId, Balance}
use cheddar.Cheddar.{Contract, Metadata, Promise}
use cheddar.Cheddar.Methods.{
  new, ft_mint, self_burn, add_minter, remove_minter, set_metadata_icon, set_metadata_reference,
  set_owner, mint_vested, cancel_vesting, ft_transfer, ft_transfer_call, ft_resolve_transfer,
}
use cheddar.Cheddar.Storage.{storage_deposit, storage_unregister, StorageBalance}

module _ (is_valid : Metadata → Bool) (from_slice : List ℕ → Option Balance) where
  -- A call that returned, from `c` to `c'`. A call that panics changes nothing and is no step.
  pub data Step (c c' : Contract) : Type 0 where
    mints : (env : Env) (r : AccountId) (x : Balance) → ft_mint env r x c ≡ ok c' → Step c c'
    burns : (env : Env) (x : Balance) → self_burn env x c ≡ ok c' → Step c c'
    adds_minter : (env : Env) (a : AccountId) → add_minter env a c ≡ ok c' → Step c c'
    removes_minter : (env : Env) (a : AccountId) → remove_minter env a c ≡ ok c' → Step c c'
    sets_icon : (env : Env) (svg : String) → set_metadata_icon env svg c ≡ ok c' → Step c c'
    sets_reference :
        (env : Env) (r h : String) → set_metadata_reference is_valid env r h c ≡ ok c' → Step c c'
    sets_owner : (env : Env) (a : AccountId) → set_owner env a c ≡ ok c' → Step c c'
    mints_vested :
        (env : Env) (r : AccountId) (x : Balance) (cliff end : ℕ)
        → mint_vested env r x cliff end c ≡ ok c'
        → Step c c'
    cancels_vesting : (env : Env) (a : AccountId) → cancel_vesting env a c ≡ ok c' → Step c c'
    transfers :
        (env : Env) (r : AccountId) (x : Balance) → ft_transfer env r x c ≡ ok c' → Step c c'
    transfers_call :
        (env : Env) (r : AccountId) (x : Balance) (msg : String) (p : List Promise)
        → ft_transfer_call env r x msg c ≡ ok (c', p)
        → Step c c'
    resolves :
        (env : Env) (s r : AccountId) (x used : Balance)
        → ft_resolve_transfer from_slice env s r x c ≡ ok (c', used)
        → Step c c'
    deposits :
        (env : Env) (who : Option AccountId) (b : StorageBalance) (p : List Promise)
        → storage_deposit env who c ≡ ok (c', b, p)
        → Step c c'
    unregisters :
        (env : Env) (force : Option Bool) (b : Bool) (p : List Promise)
        → storage_unregister env force c ≡ ok (c', b, p)
        → Step c c'

  pub data Reach (c : Contract) : Contract → Type 0 where
    here : Reach c c
    next : {c₁ c₂ : Contract} → Reach c c₁ → Step c₁ c₂ → Reach c c₂
