-- ===== src/P4Farm/History/Accounted.antt =====
-- The totals of the P4 farm against its vaults, along a history of calls (p4-farm-nft/src).
use cheddar.Prelude.{
  ℕ, zero, suc, refl, ◌<◌, ◌≡◌, ◌!=◌, ◌==◌, Bool, Option, List, length, replicate, length-replicate,
  ok, arith, inl, inr, Option-cases, Ensures, Ensures-bind, Ensures-at, get_or, assert, ltb,
}
use cheddar.Near.{Env, AccountId, Balance}
use cheddar.Near.LookupMap.{get, contains_key, sum_by-nil, All-nil}
use cheddar.P4Farm.State.{TokenId, ParseAccount, Contract, Promise}
use cheddar.P4Farm.Staking.{assert_is_active, stake_cheddar, nft_stake, boost_stake}
use cheddar.P4Farm.Setup.{
  Params, new, check_vectors, has_stake_lengths, initial_contract, setup_deposit,
  setup_deposit_near, finalize_setup, set_active, set_start_end, stop,
}
use cheddar.P4Farm.Methods.{
  TransferInstruction, to_farm, to_boost, unknown, DepositMsg, setup_reward_deposit, cheddar_stake,
  other_msg, ft_on_transfer, nft_on_transfer, storage_deposit, storage_unregister,
}
use cheddar.P4Farm.Counts.{total_at}
use cheddar.P4Farm.Accounts.{
  SameTotals, IsRated, IsAccounted, kept-IsAccounted, units_of, nfts_of, cheddar_of,
}
use cheddar.P4Farm.Accounts.Departures.{
  FirstAccounted, TripleAccounted, close-IsAccounted, unstake-IsAccounted,
  withdraw_crop-IsAccounted, withdraw_farmed_recovered-IsAccounted, withdraw_boost_nft-IsAccounted,
}
use cheddar.P4Farm.Accounts.Arrivals.{
  nft_stake-IsAccounted, boost_stake-IsAccounted, stake_cheddar-IsAccounted,
  create_account-IsAccounted,
}
use cheddar.P4Farm.Accounts.Callbacks.{
  transfer_staked_callback-IsAccounted, transfer_farmed_callback-IsAccounted,
  transfer_staked_cheddar_callback-IsAccounted, withdraw_boost_nft_callback-IsAccounted,
}
use cheddar.P4Farm.History.{Step, Reach}

setup_deposit-SameTotals :
    (token : AccountId) (x : Balance) (c : Contract) {c' : Contract}
    → setup_deposit token x c ≡ ok c'
    → SameTotals c c'
unfolding setup_deposit
setup_deposit-SameTotals token x c {c'} e = ground arith

total_at-replicate : (i n : ℕ) → total_at i (replicate n 0) ≡ 0
total_at-replicate i zero = refl
total_at-replicate zero (suc n) = refl
total_at-replicate (suc i) (suc n) = total_at-replicate i n

module _ (parse : ParseAccount) (i : ℕ) where
  ft_on_transfer-IsAccounted :
      (env : Env) (sender : AccountId) (x : Balance) (msg : DepositMsg) (c : Contract)
      → IsAccounted parse i c
      → Ensures (FirstAccounted parse i) (ft_on_transfer env sender x msg c)
  unfolding ft_on_transfer
  ft_on_transfer-IsAccounted env sender x setup_reward_deposit c h =
      let P = FirstAccounted parse i {B = Balance} in
      Ensures-bind P (assert (ltb 0 x) _) _ λ _ _.
        Ensures-bind P (setup_deposit env.predecessor_account_id x c) _
          λ c1 done. kept-IsAccounted parse i c c1 (setup_deposit-SameTotals _ x c done) h
  ft_on_transfer-IsAccounted env sender x cheddar_stake c h =
      let P = FirstAccounted parse i {B = Balance} in
      Ensures-bind P (assert (ltb 0 x) _) _ λ _ _.
        Ensures-bind P (stake_cheddar sender x c) _ λ c1 done.
          Ensures-at (IsAccounted parse i) _ (stake_cheddar-IsAccounted parse i sender x c h) done
  ft_on_transfer-IsAccounted env sender x (other_msg m) c h =
      Ensures-bind (FirstAccounted parse i) (assert (ltb 0 x) _) _ λ _ _. h

  nft_on_transfer-IsAccounted :
      (env : Env) (owner : AccountId) (t : TokenId) (msg : TransferInstruction) (c : Contract)
      → IsAccounted parse i c
      → Ensures (FirstAccounted parse i) (nft_on_transfer parse env owner t msg c)
  unfolding nft_on_transfer
  nft_on_transfer-IsAccounted env owner t to_farm c h =
      let P = FirstAccounted parse i {B = Bool} in
      let nft = env.predecessor_account_id in
      Ensures-bind P (assert (nft != env.signer_account_id) _) _ λ _ _.
        Ensures-bind P (assert (owner == env.signer_account_id) _) _ λ _ _.
          Ensures-bind P (assert_is_active c) _ λ _ _.
            Ensures-bind P (nft_stake parse env owner nft t c) _
              λ r done. Ensures-at P _ (nft_stake-IsAccounted parse i env owner nft t c h) done
  nft_on_transfer-IsAccounted env owner t to_boost c h =
      let P = FirstAccounted parse i {B = Bool} in
      let nft = env.predecessor_account_id in
      Ensures-bind P (assert (nft != env.signer_account_id) _) _ λ _ _.
        Ensures-bind P (assert (owner == env.signer_account_id) _) _ λ _ _.
          Ensures-bind P (assert_is_active c) _ λ _ _.
            Ensures-bind P (boost_stake parse env owner nft t c) _
              λ r done. Ensures-at P _ (boost_stake-IsAccounted parse i env owner nft t c h) done
  nft_on_transfer-IsAccounted env owner t unknown c h =
      let P = FirstAccounted parse i {B = Bool} in
      let nft = env.predecessor_account_id in
      Ensures-bind P (assert (nft != env.signer_account_id) _) _
        λ _ _. Ensures-bind P (assert (owner == env.signer_account_id) _) _ λ _ _. h

  storage_deposit-IsAccounted :
      (env : Env) (who : Option AccountId) (c : Contract) {r : Contract × List Promise}
      → storage_deposit env who c ≡ ok r
      → IsAccounted parse i c
      → IsAccounted parse i r.0
  unfolding storage_deposit contains_key
  storage_deposit-IsAccounted env who c {r} e h =
      elim (Option-cases (get (get_or who env.predecessor_account_id) c.vaults)) [
        | inl missing ↦ ground (arith, create_account-IsAccounted parse i _ c h missing)
        | inr (v, found) ↦ ground arith
      ]

  Step-IsAccounted :
      {c c' : Contract} → Step parse c c' → IsAccounted parse i c → IsAccounted parse i c'
  unfolding setup_deposit_near finalize_setup set_active set_start_end stop storage_unregister
  Step-IsAccounted {c} (Step.receives_ft env sender x msg unused e) h =
      Ensures-at (FirstAccounted parse i) _ (ft_on_transfer-IsAccounted env sender x msg c h) e
  Step-IsAccounted {c} (Step.receives_nft env owner t msg returned e) h =
      Ensures-at (FirstAccounted parse i) _ (nft_on_transfer-IsAccounted env owner t msg c h) e
  Step-IsAccounted {c} (Step.unstakes env nft t left p e) h =
      Ensures-at (TripleAccounted parse i) _ (unstake-IsAccounted parse i env nft t c h) e
  Step-IsAccounted {c} (Step.closes env p e) h =
      Ensures-at (FirstAccounted parse i) _ (close-IsAccounted parse i env c h) e
  Step-IsAccounted {c} (Step.withdraws_crop env p e) h =
      Ensures-at (FirstAccounted parse i) _ (withdraw_crop-IsAccounted parse i env c h) e
  Step-IsAccounted {c} (Step.withdraws_recovered env token p e) h =
      Ensures-at (FirstAccounted parse i) _
        (withdraw_farmed_recovered-IsAccounted parse i env token c h) e
  Step-IsAccounted {c} (Step.withdraws_boost env p e) h =
      Ensures-at (FirstAccounted parse i) _ (withdraw_boost_nft-IsAccounted parse i env c h) e
  Step-IsAccounted {c} {c'} (Step.deposits_near env e) h =
      kept-IsAccounted parse i c c' (setup_deposit-SameTotals _ _ c e) h
  Step-IsAccounted {c} {c'} (Step.finalizes env e) h =
      kept-IsAccounted parse i c c' (ground arith) h
  Step-IsAccounted {c} {c'} (Step.sets_active env b e) h =
      kept-IsAccounted parse i c c' (ground arith) h
  Step-IsAccounted {c} {c'} (Step.sets_start_end env start end e) h =
      kept-IsAccounted parse i c c' (ground arith) h
  Step-IsAccounted {c} {c'} (Step.stops env e) h = kept-IsAccounted parse i c c' (ground arith) h
  Step-IsAccounted {c} (Step.registers env who p e) h = storage_deposit-IsAccounted env who c e h
  Step-IsAccounted {c} (Step.unregisters env force b p e) h =
      ground (arith, close-IsAccounted parse i env c h)
  Step-IsAccounted {c} (Step.staked_arrives env user j t e) h =
      Ensures-at (IsAccounted parse i) _
        (transfer_staked_callback-IsAccounted parse i env user j t c h) e
  Step-IsAccounted {c} (Step.farmed_arrives env user j x e) h =
      Ensures-at (IsAccounted parse i) _
        (transfer_farmed_callback-IsAccounted parse i env user j x c h) e
  Step-IsAccounted {c} (Step.cheddar_arrives env user x e) h =
      Ensures-at (IsAccounted parse i) _
        (transfer_staked_cheddar_callback-IsAccounted parse i env user x c h) e
  Step-IsAccounted {c} (Step.boost_arrives env user ids j e) h =
      Ensures-at (IsAccounted parse i) _
        (withdraw_boost_nft_callback-IsAccounted parse i env user ids j c h) e

  pub Reach-IsAccounted :
      {c c' : Contract} → IsAccounted parse i c → Reach parse c c' → IsAccounted parse i c'
  Reach-IsAccounted h Reach.here = h
  Reach-IsAccounted h (Reach.next r s) = Step-IsAccounted s (Reach-IsAccounted h r)

pub new-IsAccounted :
    (parse : ParseAccount) (env : Env) (p : Params) (i : ℕ) {c : Contract}
    → new env p ≡ ok c
    → i < length p.stake_nft_tokens
    → IsAccounted parse i c
unfolding new check_vectors has_stake_lengths initial_contract
new-IsAccounted parse env p i {c} e in_range = ground (
  arith,
  sum_by-nil units_of,
  sum_by-nil (nfts_of i),
  sum_by-nil cheddar_of,
  All-nil (IsRated parse c),
  total_at-replicate i (length p.stake_nft_tokens),
  length-replicate {A = ℕ} (length p.stake_nft_tokens) 0,
)

-- A farm that is made and reached by any sequence of calls and callbacks, with any callers, arguments,
-- timestamps and answers, whatever texts are parsed as accounts: for each stake contract, its
-- total_stake is the number of its NFTs in the vaults; staked_units is the sum of the vaults' stake
-- units, each of which is what the vault's NFTs and boost give; and the Cheddar in the vaults is at most
-- total_cheddar_stake.
pub totals-Accounted :
    (parse : ParseAccount) (env : Env) (p : Params) (i : ℕ) {c c' : Contract}
    → new env p ≡ ok c
    → i < length p.stake_nft_tokens
    → Reach parse c c'
    → IsAccounted parse i c'
totals-Accounted parse env p i e in_range r =
    Reach-IsAccounted parse i (new-IsAccounted parse env p i e in_range) r
