-- ===== src/P4Farm/Payouts/Failed.antt =====
-- What the P4 farm has paid and has left when a promise was refused (p4-farm-nft/src/lib.rs).
use cheddar.Prelude.{ℕ, String, arith, Ensures, Ensures-bind, Ensures-if}
use cheddar.Prelude.Words.{add_u128}
use cheddar.Near.{Env, AccountId, Balance}
use cheddar.P3Lib.{index, add_at, sub_at}
use cheddar.P4Farm.State.{TokenId, ParseAccount, Contract}
use cheddar.P4Farm.Identifiers.{promise_result_as_failed}
use cheddar.P4Farm.Rewards.{recompute_stake, put_vault, recovered_vault}
use cheddar.P4Farm.Transfers.{
  push_at, recover_state, recover_staked, recover_farmed, transfer_staked_callback,
  transfer_farmed_callback, transfer_staked_cheddar_callback, withdraw_boost_nft_callback,
}
use cheddar.P4Farm.Counts.{total_at-sub_at}
use cheddar.P4Farm.Payouts.{recompute_stake-SamePayouts, recovered_vault-SamePayouts, IsBacked}

module _ (parse : ParseAccount) (i limit : ℕ) where
  pub transfer_staked_callback-IsBacked :
      (env : Env) (a : AccountId) (j : ℕ) (t : TokenId) (c : Contract)
      → IsBacked i limit c
      → Ensures (IsBacked i limit) (transfer_staked_callback parse env a j t c)
  unfolding transfer_staked_callback recover_state recover_staked put_vault
  transfer_staked_callback-IsBacked env a j t c h =
      let P = IsBacked i limit in
      Ensures-bind P (promise_result_as_failed env) _ λ fails _.
        Ensures-if P fails _ _
          (λ _. Ensures-bind P (index c.stake_nft_tokens j) _ λ _ _.
            Ensures-bind P (add_at c.total_stake j 1) _ λ total _.
              Ensures-bind P (recovered_vault a (record c { total_stake = total })) _
                λ (v, c1) recovered. Ensures-bind P (push_at v.staked j t) _ λ staked _.
                  Ensures-bind P (recompute_stake parse (record v { staked = staked }) c1) _
                    λ _ counted. ground (
                      arith,
                      h,
                      recovered_vault-SamePayouts a _ recovered,
                      recompute_stake-SamePayouts parse _ _ counted,
                    ))
          (λ _. h)

  -- What did not arrive counts as not paid, and is not put back into the deposit.
  pub transfer_farmed_callback-IsBacked :
      (env : Env) (a : AccountId) (j : ℕ) (x : Balance) (c : Contract)
      → IsBacked i limit c
      → Ensures (IsBacked i limit) (transfer_farmed_callback parse env a j x c)
  unfolding transfer_farmed_callback recover_state recover_farmed put_vault
  transfer_farmed_callback-IsBacked env a j x c h =
      let P = IsBacked i limit in
      Ensures-bind P (promise_result_as_failed env) _ λ fails _.
        Ensures-if P fails _ _
          (λ _. Ensures-bind P (index c.farm_tokens j) _ λ _ _.
            Ensures-bind P (recovered_vault a c) _ λ (v, c1) recovered.
              Ensures-bind P (sub_at c1.total_harvested j x) _ λ total less.
                Ensures-bind P (add_at v.farmed_recovered j x) _ λ kept _.
                  Ensures-bind P
                    (recompute_stake parse (record v { farmed_recovered = kept })
                      (record c1 { total_harvested = total }))
                    _
                    λ _ counted. ground (
                      arith,
                      h,
                      recovered_vault-SamePayouts a c recovered,
                      total_at-sub_at i j x c1.total_harvested less,
                      recompute_stake-SamePayouts parse _ _ counted,
                    ))
          (λ _. h)

  pub transfer_staked_cheddar_callback-IsBacked :
      (env : Env) (a : AccountId) (x : Balance) (c : Contract)
      → IsBacked i limit c
      → Ensures (IsBacked i limit) (transfer_staked_cheddar_callback parse env a x c)
  unfolding transfer_staked_cheddar_callback put_vault
  transfer_staked_cheddar_callback-IsBacked env a x c h =
      let P = IsBacked i limit in
      Ensures-bind P (promise_result_as_failed env) _ λ fails _.
        Ensures-if P fails _ _
          (λ _. Ensures-bind P (add_u128 c.total_cheddar_stake x) _ λ total _.
            Ensures-bind P (recovered_vault a (record c { total_cheddar_stake = total })) _
              λ (v, c1) recovered. Ensures-bind P (add_u128 v.cheddar_staked x) _ λ more _.
                Ensures-bind P (recompute_stake parse (record v { cheddar_staked = more }) c1) _
                  λ _ counted. ground (
                    arith,
                    h,
                    recovered_vault-SamePayouts a _ recovered,
                    recompute_stake-SamePayouts parse _ _ counted,
                  ))
          (λ _. h)

  pub withdraw_boost_nft_callback-IsBacked :
      (env : Env) (a : AccountId) (ids : String) (j : ℕ) (c : Contract)
      → IsBacked i limit c
      → Ensures (IsBacked i limit) (withdraw_boost_nft_callback parse env a ids j c)
  unfolding withdraw_boost_nft_callback put_vault
  withdraw_boost_nft_callback-IsBacked env a ids j c h =
      let P = IsBacked i limit in
      Ensures-bind P (promise_result_as_failed env) _ λ fails _.
        Ensures-if P fails _ _
          (λ _. Ensures-bind P (recovered_vault a c) _ λ (v, c1) recovered.
            Ensures-bind P (add_at c1.total_boost j 1) _ λ total _.
              Ensures-bind P
                (recompute_stake parse (record v { boost_nft = ids })
                  (record c1 { total_boost = total }))
                _
                λ _ counted. ground (
                  arith,
                  h,
                  recovered_vault-SamePayouts a c recovered,
                  recompute_stake-SamePayouts parse _ _ counted,
                ))
          (λ _. h)
