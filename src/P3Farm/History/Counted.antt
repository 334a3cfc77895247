-- ===== src/P3Farm/History/Counted.antt =====
-- The stake units of the farm against those of its vaults, along a history of calls.
use cheddar.Prelude.{
  ℕ, zero, suc, ◌<◌, ◌≡◌, Bool, Option, List, length, String, ok, arith, inl, inr, Option-cases,
  Ensures, Ensures-bind, Ensures-if, Ensures-at, get_or,
}
use cheddar.Prelude.Words.{add_u128}
use cheddar.Near.{Env, AccountId, Balance}
use cheddar.Near.LookupMap.{get, contains_key, sum_by-nil, All-nil}
use cheddar.P3Lib.{index, add_at}
use cheddar.P3Farm.State.{Contract, Promise}
use cheddar.P3Farm.Transfers.{
  transfer_staked_callback, transfer_farmed_callback, withdraw_fees_callback, withdraw_fees,
  withdraw_fees_from, recover_state, has_failed,
}
use cheddar.P3Farm.Staking.{unstake}
use cheddar.P3Farm.Setup.{
  new, check_vectors, has_stake_lengths, initial_contract, setup_deposit, setup_deposit_near,
  finalize_setup, set_active, set_start_end, admin_withdraw,
}
use cheddar.P3Farm.Methods.{
  TransferMsg, setup_reward_deposit, other_msg, ft_on_transfer, stake_near, nft_on_transfer,
  storage_deposit, storage_unregister,
}
use cheddar.P3Farm.Units.{units_of, IsCounted, IsRated, SameUnits}
use cheddar.P3Farm.Units.Calls.{
  FirstCounted, stake-IsCounted, recover_staked-IsCounted, withdraw_nft_callback-IsCounted,
}
use cheddar.P3Farm.Units.Exits.{close-IsCounted}
use cheddar.P3Farm.Units.Withdrawals.{
  kept-IsCounted, UnstakeCounted, unstake-IsCounted, withdraw_crop-IsCounted,
  withdraw_farmed_recovered-IsCounted, recover_farmed-IsCounted, withdraw_nft-IsCounted,
  create_account-IsCounted, put_nft-IsCounted,
}
use cheddar.P3Farm.History.{Step, Reach}

setup_deposit-SameUnits :
    (token : AccountId) (x : Balance) (c : Contract) {c' : Contract}
    → setup_deposit token x c ≡ ok c'
    → SameUnits c c'
unfolding setup_deposit
setup_deposit-SameUnits token x c {c'} e = ground arith

withdraw_fees_from-SameUnits :
    (n i : ℕ) (c : Contract) {r : Contract × List Promise}
    → withdraw_fees_from n i c ≡ ok r
    → SameUnits c r.0
unfolding withdraw_fees_from
withdraw_fees_from-SameUnits zero i c {r} e = ground arith
withdraw_fees_from-SameUnits (suc n) i c {r} e = grind (arith, withdraw_fees_from-SameUnits n)

ft_on_transfer-IsCounted :
    (env : Env) (sender : AccountId) (x : Balance) (msg : TransferMsg) (c : Contract)
    {r : Contract × Balance}
    → ft_on_transfer env sender x msg c ≡ ok r
    → IsCounted c
    → IsCounted r.0
unfolding ft_on_transfer
ft_on_transfer-IsCounted env sender x setup_reward_deposit c {r} e h =
    kept-IsCounted c r.0 h (grind (arith, setup_deposit-SameUnits))
ft_on_transfer-IsCounted env sender x (other_msg m) c {r} e h =
    ground (arith, stake-IsCounted env sender env.predecessor_account_id x c h)

nft_on_transfer-IsCounted :
    (env : Env) (owner : AccountId) (token_id : String) (c : Contract) {r : Contract × Bool}
    → nft_on_transfer env owner token_id c ≡ ok r
    → IsCounted c
    → IsCounted r.0
unfolding nft_on_transfer
nft_on_transfer-IsCounted env owner token_id c {r} e h = elim (Option-cases (get owner c.vaults)) [
  | inl missing ↦ ground arith
  | inr (v, found) ↦ ground (arith, put_nft-IsCounted env owner v token_id c h found)
]

storage_deposit-IsCounted :
    (env : Env) (who : Option AccountId) (c : Contract) {r : Contract × List Promise}
    → storage_deposit env who c ≡ ok r
    → IsCounted c
    → IsCounted r.0
unfolding storage_deposit contains_key
storage_deposit-IsCounted env who c {r} e h =
    elim (Option-cases (get (get_or who env.predecessor_account_id) c.vaults)) [
      | inl missing ↦ ground (arith, create_account-IsCounted _ c h missing)
      | inr (v, found) ↦ ground arith
    ]

transfer_staked_callback-IsCounted :
    (env : Env) (user : AccountId) (i : ℕ) (x fee : Balance) (c : Contract)
    → IsCounted c
    → Ensures IsCounted (transfer_staked_callback env user i x fee c)
unfolding transfer_staked_callback recover_state
transfer_staked_callback-IsCounted env user i x fee c h =
    Ensures-bind IsCounted (has_failed env) _ λ fails _.
      Ensures-if IsCounted fails _ _
        (λ _. Ensures-bind IsCounted (index c.stake_tokens i) _ λ _ _.
          Ensures-bind IsCounted (add_u128 x fee) _ λ full _.
            Ensures-bind IsCounted (add_at c.total_stake i full) _ λ total _.
              recover_staked-IsCounted user i full _ (kept-IsCounted c _ h (ground arith)))
        (λ _.
          Ensures-bind IsCounted (add_at c.fee_collected i fee) _
            λ collected _. kept-IsCounted c _ h (ground arith))

Step-IsCounted : {c c' : Contract} → Step c c' → IsCounted c → IsCounted c'
unfolding stake_near unstake setup_deposit_near finalize_setup set_active set_start_end
    admin_withdraw withdraw_fees storage_unregister transfer_farmed_callback recover_state
    withdraw_fees_callback
Step-IsCounted {c} (Step.receives_ft env sender x msg unused e) h =
    ft_on_transfer-IsCounted env sender x msg c e h
Step-IsCounted {c} (Step.stakes_near env e) h =
    ground (arith, stake-IsCounted env env.predecessor_account_id 0 env.attached_deposit c h)
Step-IsCounted {c} (Step.receives_nft env owner token_id returned e) h =
    nft_on_transfer-IsCounted env owner token_id c e h
Step-IsCounted {c} (Step.withdraws_nft env receiver p e) h =
    Ensures-at FirstCounted _ (withdraw_nft-IsCounted env receiver c h) e
Step-IsCounted {c} (Step.unstakes env token x left p e) h =
    Ensures-at UnstakeCounted _ (unstake-IsCounted env token x c h) e
Step-IsCounted {c} (Step.closes env p e) h = Ensures-at FirstCounted _ (close-IsCounted env c h) e
Step-IsCounted {c} (Step.withdraws_crop env p e) h =
    Ensures-at FirstCounted _ (withdraw_crop-IsCounted env c h) e
Step-IsCounted {c} (Step.withdraws_recovered env token p e) h =
    Ensures-at FirstCounted _ (withdraw_farmed_recovered-IsCounted env token c h) e
Step-IsCounted {c} {c'} (Step.deposits_near env e) h =
    kept-IsCounted c c' h (setup_deposit-SameUnits _ _ c e)
Step-IsCounted {c} {c'} (Step.finalizes env e) h = kept-IsCounted c c' h (ground arith)
Step-IsCounted {c} {c'} (Step.sets_active env b e) h = kept-IsCounted c c' h (ground arith)
Step-IsCounted {c} {c'} (Step.sets_start_end env start end e) h =
    kept-IsCounted c c' h (ground arith)
Step-IsCounted {c} {c'} (Step.withdraws_admin env token x p e) h =
    kept-IsCounted c c' h (ground arith)
Step-IsCounted {c} {c'} (Step.withdraws_fees p e) h =
    kept-IsCounted c c' h (withdraw_fees_from-SameUnits _ _ c e)
Step-IsCounted {c} (Step.registers env who p e) h = storage_deposit-IsCounted env who c e h
Step-IsCounted {c} (Step.unregisters env force b p e) h = ground (arith, close-IsCounted env c h)
Step-IsCounted {c} (Step.staked_arrives env user i x fee e) h =
    Ensures-at IsCounted _ (transfer_staked_callback-IsCounted env user i x fee c h) e
Step-IsCounted {c} (Step.farmed_arrives env user i x e) h =
    ground (arith, recover_farmed-IsCounted user i x c h)
Step-IsCounted {c} (Step.nft_arrives env user cheddy e) h =
    Ensures-at IsCounted _ (withdraw_nft_callback-IsCounted env user cheddy c h) e
Step-IsCounted {c} {c'} (Step.fees_arrive env i x e) h = kept-IsCounted c c' h (ground arith)

Reach-IsCounted : {c c' : Contract} → IsCounted c → Reach c c' → IsCounted c'
Reach-IsCounted h Reach.here = h
Reach-IsCounted h (Reach.next r s) = Step-IsCounted s (Reach-IsCounted h r)

-- A farm that is made with at least one stake token and reached by any sequence of calls other than
-- admin_set_rates, with any callers, arguments, timestamps and answers: staked_units is the sum of the
-- stake units of the vaults, and each vault has the units that its tokens and its Cheddy give it.
pub staked_units-eq-sum :
    (env : Env) (owner_id : AccountId) (stake_tokens : List AccountId) (stake_rates : List ℕ)
    (farm_unit_emission : ℕ) (farm_tokens : List AccountId) (farm_token_rates : List ℕ)
    (start end : ℕ) (nft : AccountId) (boost fee_rate : ℕ) (treasury : AccountId) {c c' : Contract}
    → new env owner_id stake_tokens stake_rates farm_unit_emission farm_tokens farm_token_rates
        start end nft boost fee_rate treasury
      ≡ ok c
    → 0 < length stake_tokens
    → Reach c c'
    → IsCounted c'
unfolding new check_vectors has_stake_lengths initial_contract
staked_units-eq-sum env owner_id stake_tokens stake_rates emission farm_tokens farm_token_rates
      start end nft boost fee_rate treasury {c} e some_token r =
    Reach-IsCounted (ground (arith, sum_by-nil units_of, All-nil (IsRated stake_rates boost))) r
