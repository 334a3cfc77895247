-- ===== src/P4Farm/History/Backed.antt =====
-- The payouts of the P4 farm against its deposits, along a history of calls (p4-farm-nft/src).
use cheddar.Prelude.{
  ℕ, ◌+◌, ◌≤◌, ◌≡◌, ◌!=◌, ◌==◌, true, Bool, ok, arith, ltb, assert, Ensures, Ensures-bind,
  Ensures-at,
}
use cheddar.Near.{Env, AccountId, Balance}
use cheddar.P4Farm.State.{TokenId, ParseAccount, Contract}
use cheddar.P4Farm.Rewards.{put_vault}
use cheddar.P4Farm.Staking.{assert_is_active, stake_cheddar, nft_stake, boost_stake}
use cheddar.P4Farm.Setup.{
  setup_deposit, setup_deposit_near, finalize_setup, set_active, set_start_end, stop,
}
use cheddar.P4Farm.Methods.{
  TransferInstruction, to_farm, to_boost, unknown, DepositMsg, setup_reward_deposit, cheddar_stake,
  other_msg, ft_on_transfer, nft_on_transfer, storage_deposit, storage_unregister, create_account,
}
use cheddar.P4Farm.Counts.{total_at}
use cheddar.P4Farm.Payouts.{
  IsBacked, FirstBacked, withdraw_crop-IsBacked, withdraw_farmed_recovered-IsBacked,
  stake_cheddar-IsBacked, nft_stake-IsBacked, boost_stake-IsBacked,
}
use cheddar.P4Farm.Payouts.Returned.{
  TripleBacked, close-IsBacked, unstake-IsBacked, withdraw_boost_nft-IsBacked,
}
use cheddar.P4Farm.Payouts.Failed.{
  transfer_staked_callback-IsBacked, transfer_farmed_callback-IsBacked,
  transfer_staked_cheddar_callback-IsBacked, withdraw_boost_nft_callback-IsBacked,
}
use cheddar.P4Farm.History.{Step, Reach}

-- After the setup every deposit panics.
late_deposit :
    (token : AccountId) (x : Balance) (c : Contract) {c' : Contract}
    → c.setup_finalized ≡ true
    → setup_deposit token x c ≡ ok c'
    → ⊥
unfolding setup_deposit
late_deposit token x c {c'} late e = ground arith

module _ (parse : ParseAccount) (i limit : ℕ) where
  ft_on_transfer-IsBacked :
      (env : Env) (sender : AccountId) (x : Balance) (msg : DepositMsg) (c : Contract)
      → IsBacked i limit c
      → Ensures (FirstBacked i limit) (ft_on_transfer env sender x msg c)
  unfolding ft_on_transfer
  ft_on_transfer-IsBacked env sender x setup_reward_deposit c h =
      let P = FirstBacked i limit {B = Balance} in
      Ensures-bind P (assert (ltb 0 x) _) _ λ _ _.
        Ensures-bind P (setup_deposit env.predecessor_account_id x c) _
          λ c1 done. absurd (late_deposit _ x c h.0 done)
  ft_on_transfer-IsBacked env sender x cheddar_stake c h =
      let P = FirstBacked i limit {B = Balance} in
      Ensures-bind P (assert (ltb 0 x) _) _ λ _ _.
        Ensures-bind P (stake_cheddar sender x c) _ λ c1 done.
          Ensures-at (IsBacked i limit) _ (stake_cheddar-IsBacked i limit sender x c h) done
  ft_on_transfer-IsBacked env sender x (other_msg m) c h =
      Ensures-bind (FirstBacked i limit) (assert (ltb 0 x) _) _ λ _ _. h

  nft_on_transfer-IsBacked :
      (env : Env) (owner : AccountId) (t : TokenId) (msg : TransferInstruction) (c : Contract)
      → IsBacked i limit c
      → Ensures (FirstBacked i limit) (nft_on_transfer parse env owner t msg c)
  unfolding nft_on_transfer
  nft_on_transfer-IsBacked env owner t to_farm c h =
      let P = FirstBacked i limit {B = Bool} in
      let nft = env.predecessor_account_id in
      Ensures-bind P (assert (nft != env.signer_account_id) _) _ λ _ _.
        Ensures-bind P (assert (owner == env.signer_account_id) _) _ λ _ _.
          Ensures-bind P (assert_is_active c) _ λ _ _.
            Ensures-bind P (nft_stake parse env owner nft t c) _
              λ r done. Ensures-at P _ (nft_stake-IsBacked parse i limit env owner nft t c h) done
  nft_on_transfer-IsBacked env owner t to_boost c h =
      let P = FirstBacked i limit {B = Bool} in
      let nft = env.predecessor_account_id in
      Ensures-bind P (assert (nft != env.signer_account_id) _) _ λ _ _.
        Ensures-bind P (assert (owner == env.signer_account_id) _) _ λ _ _.
          Ensures-bind P (assert_is_active c) _ λ _ _.
            Ensures-bind P (boost_stake parse env owner nft t c) _
              λ r done. Ensures-at P _ (boost_stake-IsBacked parse i limit env owner nft t c h) done
  nft_on_transfer-IsBacked env owner t unknown c h =
      let P = FirstBacked i limit {B = Bool} in
      let nft = env.predecessor_account_id in
      Ensures-bind P (assert (nft != env.signer_account_id) _) _
        λ _ _. Ensures-bind P (assert (owner == env.signer_account_id) _) _ λ _ _. h

  Step-IsBacked : {c c' : Contract} → Step parse c c' → IsBacked i limit c → IsBacked i limit c'
  unfolding setup_deposit_near finalize_setup set_active set_start_end stop storage_unregister
      storage_deposit create_account put_vault
  Step-IsBacked {c} (Step.receives_ft env sender x msg unused e) h =
      Ensures-at (FirstBacked i limit) _ (ft_on_transfer-IsBacked env sender x msg c h) e
  Step-IsBacked {c} (Step.receives_nft env owner t msg returned e) h =
      Ensures-at (FirstBacked i limit) _ (nft_on_transfer-IsBacked env owner t msg c h) e
  Step-IsBacked {c} (Step.unstakes env nft t left p e) h =
      Ensures-at (TripleBacked parse i limit) _ (unstake-IsBacked parse i limit env nft t c h) e
  Step-IsBacked {c} (Step.closes env p e) h =
      Ensures-at (FirstBacked i limit) _ (close-IsBacked parse i limit env c h) e
  Step-IsBacked {c} (Step.withdraws_crop env p e) h =
      Ensures-at (FirstBacked i limit) _ (withdraw_crop-IsBacked i limit env c h) e
  Step-IsBacked {c} (Step.withdraws_recovered env token p e) h =
      Ensures-at (FirstBacked i limit) _ (withdraw_farmed_recovered-IsBacked i limit env token c h)
        e
  Step-IsBacked {c} (Step.withdraws_boost env p e) h =
      Ensures-at (FirstBacked i limit) _ (withdraw_boost_nft-IsBacked parse i limit env c h) e
  Step-IsBacked {c} {c'} (Step.deposits_near env e) h = absurd (late_deposit _ _ c h.0 e)
  Step-IsBacked {c} {c'} (Step.finalizes env e) h = absurd (ground arith)
  Step-IsBacked {c} {c'} (Step.sets_active env b e) h = ground arith
  Step-IsBacked {c} {c'} (Step.sets_start_end env start end e) h = ground arith
  Step-IsBacked {c} {c'} (Step.stops env e) h = ground arith
  Step-IsBacked {c} (Step.registers env who p e) h = ground arith
  Step-IsBacked {c} (Step.unregisters env force b p e) h =
      ground (arith, close-IsBacked parse i limit env c h)
  Step-IsBacked {c} (Step.staked_arrives env user j t e) h =
      Ensures-at (IsBacked i limit) _
        (transfer_staked_callback-IsBacked parse i limit env user j t c h) e
  Step-IsBacked {c} (Step.farmed_arrives env user j x e) h =
      Ensures-at (IsBacked i limit) _
        (transfer_farmed_callback-IsBacked parse i limit env user j x c h) e
  Step-IsBacked {c} (Step.cheddar_arrives env user x e) h =
      Ensures-at (IsBacked i limit) _
        (transfer_staked_cheddar_callback-IsBacked parse i limit env user x c h) e
  Step-IsBacked {c} (Step.boost_arrives env user ids j e) h =
      Ensures-at (IsBacked i limit) _
        (withdraw_boost_nft_callback-IsBacked parse i limit env user ids j c h) e

  Reach-IsBacked : {c c' : Contract} → IsBacked i limit c → Reach parse c c' → IsBacked i limit c'
  Reach-IsBacked h Reach.here = h
  Reach-IsBacked h (Reach.next r s) = Step-IsBacked s (Reach-IsBacked h r)

-- From a farm whose setup is final, through any sequence of calls and callbacks, with any callers,
-- arguments, timestamps and answers: the setup stays final, and for every farm token what is counted
-- as harvested and what is left of the deposit are together no more than they were, so that no more
-- is ever harvested than the deposit that was left.
pub payouts-Backed :
    (parse : ParseAccount) (i : ℕ) {c c' : Contract}
    → c.setup_finalized ≡ true
    → Reach parse c c'
    → (c'.setup_finalized ≡ true)
      × (total_at i c'.total_harvested + total_at i c'.farm_deposits
          ≤ total_at i c.total_harvested + total_at i c.farm_deposits)
payouts-Backed parse i {c} final r =
    Reach-IsBacked parse i (total_at i c.total_harvested + total_at i c.farm_deposits)
      (final, omega arith) r
