-- ===== src/Cheddar/History/Conservation.antt =====
-- Histories of the Cheddar token (cheddar/src/lib.rs), and the supply against the balances along them.
use cheddar.Prelude.{ℕ, ◌≡◌, Bool, Option, List, String, ok, arith, inl, inr, Option-cases}
use cheddar.Near.{AccountId, Balance}
use cheddar.Near.LookupMap.{get, sum_by-nil}
use cheddar.Cheddar.{Contract, Metadata}
use cheddar.Cheddar.Methods.{
  new, ft_mint, self_burn, add_minter, remove_minter, set_metadata_icon, set_metadata_reference,
  set_owner, mint_vested, cancel_vesting, ft_transfer, ft_transfer_call, ft_resolve_transfer,
}
use cheddar.Cheddar.History
use cheddar.Cheddar.Supply.{
  token_of, IsBalanced, mint-Ensures, internal_burn-Ensures, internal_transfer-Ensures,
}
use cheddar.Cheddar.Supply.Refunds.{
  ft_resolve_transfer_adjust-Ensures, storage_deposit-IsBalanced, storage_unregister-IsBalanced,
}

module _ (is_valid : Metadata → Bool) (from_slice : List ℕ → Option Balance) where
  Step-IsBalanced :
      {c c' : Contract} → History.Step is_valid from_slice c c' → IsBalanced c → IsBalanced c'
  unfolding ft_mint self_burn add_minter remove_minter set_metadata_icon set_metadata_reference
      set_owner mint_vested cancel_vesting ft_transfer ft_transfer_call ft_resolve_transfer
  Step-IsBalanced {c} {c'} (History.Step.mints env r x e) h = ground (arith, mint-Ensures r x c h)
  Step-IsBalanced {c} {c'} (History.Step.burns env x e) h =
      ground (arith, internal_burn-Ensures env.predecessor_account_id x c h)
  Step-IsBalanced (History.Step.adds_minter env a e) h = ground arith
  Step-IsBalanced (History.Step.removes_minter env a e) h = ground arith
  Step-IsBalanced (History.Step.sets_icon env svg e) h = ground arith
  Step-IsBalanced (History.Step.sets_reference env r k e) h = ground arith
  Step-IsBalanced (History.Step.sets_owner env a e) h = ground arith
  Step-IsBalanced {c} {c'} (History.Step.mints_vested env r x s t e) h =
      ground (arith, mint-Ensures r x c h)
  Step-IsBalanced {c} {c'} (History.Step.cancels_vesting env a e) h =
      elim (Option-cases (get a c.vested)) [
        | inl missing ↦ ground arith
        | inr (v, found) ↦ ground (arith, internal_burn-Ensures a v.amount c h)
      ]
  Step-IsBalanced {c} {c'} (History.Step.transfers env r x e) h =
      ground (arith, internal_transfer-Ensures env env.predecessor_account_id r x c h)
  Step-IsBalanced {c} {c'} (History.Step.transfers_call env r x m p e) h =
      ground (arith, internal_transfer-Ensures env env.predecessor_account_id r x c h)
  Step-IsBalanced {c} {c'} (History.Step.resolves env s r x u e) h =
      ground (arith, ft_resolve_transfer_adjust-Ensures from_slice env s r x c h)
  Step-IsBalanced {c} (History.Step.deposits env who b p e) h =
      (storage_deposit-IsBalanced env who c e h).0
  Step-IsBalanced {c} (History.Step.unregisters env force b p e) h =
      (storage_unregister-IsBalanced env force c e h).0

  new-IsBalanced :
      (icon : String) (owner : AccountId) {c : Contract}
      → new is_valid icon owner ≡ ok c
      → IsBalanced c
  unfolding new
  new-IsBalanced icon owner {c} e = ground (arith, sum_by-nil token_of)

  Reach-IsBalanced :
      {c c' : Contract} → IsBalanced c → History.Reach is_valid from_slice c c' → IsBalanced c'
  Reach-IsBalanced h History.Reach.here = h
  Reach-IsBalanced h (History.Reach.next r s) = Step-IsBalanced s (Reach-IsBalanced h r)

  -- Whatever calls follow on the creation of the contract, with any callers, arguments, timestamps
  -- and answers of other contracts: the supply is the sum of the registered balances, and it fits
  -- in 128 bits.
  pub total_supply-eq-sum :
      (icon : String) (owner : AccountId) {c c' : Contract}
      → new is_valid icon owner ≡ ok c
      → History.Reach is_valid from_slice c c'
      → IsBalanced c'
  total_supply-eq-sum icon owner e r = Reach-IsBalanced (new-IsBalanced icon owner e) r
