-- ===== src/Cheddar/Supply/Refunds.antt =====
-- The supply across the resolution of a transfer call, and across the storage methods.
use cheddar.Prelude.{ℕ, ◌+◌, ◌≤◌, ◌≡◌, Bool, Option, some, List, ok, arith, Ensures, Ensures-intro}
use cheddar.Prelude.Words.{add_u128_inv, checked_sub}
use cheddar.Near.{Env, AccountId, Balance}
use cheddar.Near.LookupMap.{get, sum_by-insert, sum_by-remove}
use cheddar.Cheddar.{Contract, AccBalance, Promise}
use cheddar.Cheddar.Methods.{refund_unused, ft_resolve_transfer_adjust}
use cheddar.Cheddar.Storage.{storage_deposit, storage_unregister, StorageBalance}
use cheddar.Cheddar.Supply.{IsBalanced}

module _ (from_slice : List ℕ → Option Balance) where
  refund_unused-IsBalanced :
      (r : AccountId) (ab : AccBalance) (s : AccountId) (amount unused : Balance) (c : Contract)
      {c' : Contract} {used burned : Balance}
      → refund_unused from_slice r ab s amount unused c ≡ ok (c', used, burned)
      → get r c.accounts ≡ some ab
      → IsBalanced c
      → IsBalanced c' × (c'.total_supply + burned ≡ c.total_supply)
  unfolding refund_unused checked_sub
  refund_unused-IsBalanced r ab s amount unused c {c'} {used} {burned} e found h =
      grind (arith, sum_by-insert, add_u128_inv)

  pub ft_resolve_transfer_adjust-IsBalanced :
      (env : Env) (s r : AccountId) (amount : Balance) (c : Contract) {c' : Contract}
      {used burned : Balance}
      → ft_resolve_transfer_adjust from_slice env s r amount c ≡ ok (c', used, burned)
      → IsBalanced c
      → IsBalanced c' × (c'.total_supply + burned ≡ c.total_supply)
  unfolding ft_resolve_transfer_adjust
  ft_resolve_transfer_adjust-IsBalanced env s r amount c {c'} {used} {burned} e h =
      grind (arith, refund_unused-IsBalanced)

  pub ft_resolve_transfer_adjust-Ensures :
      (env : Env) (s r : AccountId) (amount : Balance) (c : Contract)
      → IsBalanced c
      → Ensures
          (λ (t : Contract × Balance × Balance). IsBalanced t.0)
          (ft_resolve_transfer_adjust from_slice env s r amount c)
  ft_resolve_transfer_adjust-Ensures env s r amount c h =
      Ensures-intro (λ (t : Contract × Balance × Balance). IsBalanced t.0) _
        (λ t e. (ft_resolve_transfer_adjust-IsBalanced env s r amount c e h).0)

pub storage_deposit-IsBalanced :
    (env : Env) (who : Option AccountId) (c : Contract) {c' : Contract} {b : StorageBalance}
    {p : List Promise}
    → storage_deposit env who c ≡ ok (c', b, p)
    → IsBalanced c
    → IsBalanced c' × (c'.total_supply ≡ c.total_supply)
unfolding storage_deposit
storage_deposit-IsBalanced env who c {c'} {b} {p} e h = grind (arith, sum_by-insert)

pub storage_unregister-IsBalanced :
    (env : Env) (force : Option Bool) (c : Contract) {c' : Contract} {b : Bool} {p : List Promise}
    → storage_unregister env force c ≡ ok (c', b, p)
    → IsBalanced c
    → IsBalanced c' × (c'.total_supply ≤ c.total_supply)
unfolding storage_unregister checked_sub
storage_unregister-IsBalanced env force c {c'} {b} {p} e h = grind (arith, sum_by-remove)
