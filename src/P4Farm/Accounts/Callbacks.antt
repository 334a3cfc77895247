-- ===== src/P4Farm/Accounts/Callbacks.antt =====
-- The totals of the P4 farm across the callbacks of its promises (p4-farm-nft/src/lib.rs).
use cheddar.Prelude.{
  ℕ, ◌+◌, ◌≡◌, refl, String, List, length, ok, arith, Ensures, Ensures-bind, Ensures-if,
  Option-cases, inl, inr,
}
use cheddar.Prelude.Words.{add_u128, add_u128_inv}
use cheddar.Near.{Env, AccountId, Balance}
use cheddar.Near.LookupMap.{get}
use cheddar.P3Lib.{index, add_at, sub_at}
use cheddar.P4Farm.State.{TokenId, ParseAccount, Vault, Contract}
use cheddar.P4Farm.Identifiers.{promise_result_as_failed}
use cheddar.P4Farm.Rewards.{recompute_stake, new_vault, recovered_vault}
use cheddar.P4Farm.Transfers.{
  push_at, recover_staked, recover_farmed, recover_state, transfer_staked_callback,
  transfer_farmed_callback, transfer_staked_cheddar_callback, withdraw_boost_nft_callback,
}
use cheddar.P4Farm.Counts.{nfts_at, total_at, at_index, total_at-add_at, nfts_at-push_at}
use cheddar.P4Farm.Accounts.{IsAccounted, Owes, OwesFor, found-OwesFor, kept-Owes}
use cheddar.P4Farm.Accounts.Changes.{put_recomputed-IsAccounted}
use cheddar.P4Farm.Accounts.Fresh.{fresh-OwesFor, recovered-OwesFor}

module _ (parse : ParseAccount) (i : ℕ) where
  -- What is put back into the totals first is owed to the account.
  raised-Owes :
      (a : AccountId) (k x : ℕ) (v : Vault) (c : Contract) (total : List Balance)
      (cheddar : Balance)
      → total_at i total ≡ total_at i c.total_stake + k
      → length total ≡ length c.total_stake
      → cheddar ≡ c.total_cheddar_stake + x
      → OwesFor parse i a v c
      → Owes parse i a v.min_stake
          (nfts_at i v.staked + k)
          (v.cheddar_staked + x)
          (record c { total_stake = total; total_cheddar_stake = cheddar })
  raised-Owes a k x v c total cheddar more same raised h =
      ground (arith, h.units, h.nfts, h.cheddar, h.rated, h.in_range, h.one_rate_each, h.has_rate)

  recovered-Owes :
      (a : AccountId) (k x : ℕ) (c : Contract) (total : List Balance) (cheddar : Balance)
      {v : Vault} {c' : Contract}
      → recovered_vault a (record c { total_stake = total; total_cheddar_stake = cheddar })
        ≡ ok (v, c')
      → total_at i total ≡ total_at i c.total_stake + k
      → length total ≡ length c.total_stake
      → cheddar ≡ c.total_cheddar_stake + x
      → IsAccounted parse i c
      → Owes parse i a v.min_stake (nfts_at i v.staked + k) (v.cheddar_staked + x) c'
  unfolding recovered_vault new_vault
  recovered-Owes a k x c total cheddar {v} {c'} e more same raised h =
      elim (Option-cases (get a c.vaults)) [
        | inl missing ↦ ground (
          arith,
          raised-Owes a k x (new_vault c) c total cheddar more same raised
              (fresh-OwesFor parse i a c h missing),
        )
        | inr (w, found) ↦ ground (
          arith,
          raised-Owes a k x w c total cheddar more same raised
              (found-OwesFor parse i a w c h found),
        )
      ]

  pub transfer_staked_callback-IsAccounted :
      (env : Env) (a : AccountId) (j : ℕ) (t : TokenId) (c : Contract)
      → IsAccounted parse i c
      → Ensures (IsAccounted parse i) (transfer_staked_callback parse env a j t c)
  unfolding transfer_staked_callback recover_state recover_staked
  transfer_staked_callback-IsAccounted env a j t c h =
      let P = IsAccounted parse i in
      Ensures-bind P (promise_result_as_failed env) _ λ fails _.
        Ensures-if P fails _ _
          (λ _. Ensures-bind P (index c.stake_nft_tokens j) _ λ _ _.
            Ensures-bind P (add_at c.total_stake j 1) _ λ total more.
              Ensures-bind P (recovered_vault a (record c { total_stake = total })) _
                λ (v, c1) recovered. Ensures-bind P (push_at v.staked j t) _ λ staked pushed.
                  Ensures-bind P (recompute_stake parse (record v { staked = staked }) c1) _
                    λ (w, c2) counted.
                      let raised = total_at-add_at i j 1 c.total_stake more in
                      let owed =
                        recovered-Owes a (at_index i j 1) 0 c total c.total_cheddar_stake recovered
                          raised.0 raised.1 (omega arith) h in
                      put_recomputed-IsAccounted parse i a _ c1 counted
                        (ground (arith, owed, nfts_at-push_at i j t v.staked pushed)))
          (λ _. h)

  pub transfer_farmed_callback-IsAccounted :
      (env : Env) (a : AccountId) (j : ℕ) (x : Balance) (c : Contract)
      → IsAccounted parse i c
      → Ensures (IsAccounted parse i) (transfer_farmed_callback parse env a j x c)
  unfolding transfer_farmed_callback recover_state recover_farmed
  transfer_farmed_callback-IsAccounted env a j x c h =
      let P = IsAccounted parse i in
      Ensures-bind P (promise_result_as_failed env) _ λ fails _.
        Ensures-if P fails _ _
          (λ _. Ensures-bind P (index c.farm_tokens j) _ λ _ _.
            Ensures-bind P (recovered_vault a c) _ λ (v, c1) recovered.
              Ensures-bind P (sub_at c1.total_harvested j x) _ λ total _.
                Ensures-bind P (add_at v.farmed_recovered j x) _ λ kept _.
                  Ensures-bind P
                    (recompute_stake parse (record v { farmed_recovered = kept })
                      (record c1 { total_harvested = total }))
                    _
                    λ (w, c2) counted. put_recomputed-IsAccounted parse i a _ _ counted (
                      kept-Owes parse i a _ _ _ c1 _ (ground arith)
                        (recovered-OwesFor parse i a c recovered h)))
          (λ _. h)

  pub transfer_staked_cheddar_callback-IsAccounted :
      (env : Env) (a : AccountId) (x : Balance) (c : Contract)
      → IsAccounted parse i c
      → Ensures (IsAccounted parse i) (transfer_staked_cheddar_callback parse env a x c)
  unfolding transfer_staked_cheddar_callback
  transfer_staked_cheddar_callback-IsAccounted env a x c h =
      let P = IsAccounted parse i in
      Ensures-bind P (promise_result_as_failed env) _ λ fails _.
        Ensures-if P fails _ _
          (λ _. Ensures-bind P (add_u128 c.total_cheddar_stake x) _ λ total raised.
            Ensures-bind P (recovered_vault a (record c { total_cheddar_stake = total })) _
              λ (v, c1) recovered. Ensures-bind P (add_u128 v.cheddar_staked x) _ λ more added.
                Ensures-bind P (recompute_stake parse (record v { cheddar_staked = more }) c1) _
                  λ (w, c2) counted.
                    let owed =
                      recovered-Owes a 0 x c c.total_stake total recovered (omega arith) refl
                        (add_u128_inv c.total_cheddar_stake x raised).1 h in
                    put_recomputed-IsAccounted parse i a _ c1 counted
                      (ground (arith, owed, add_u128_inv v.cheddar_staked x added)))
          (λ _. h)

  pub withdraw_boost_nft_callback-IsAccounted :
      (env : Env) (a : AccountId) (ids : String) (j : ℕ) (c : Contract)
      → IsAccounted parse i c
      → Ensures (IsAccounted parse i) (withdraw_boost_nft_callback parse env a ids j c)
  unfolding withdraw_boost_nft_callback
  withdraw_boost_nft_callback-IsAccounted env a ids j c h =
      let P = IsAccounted parse i in
      Ensures-bind P (promise_result_as_failed env) _ λ fails _.
        Ensures-if P fails _ _
          (λ _. Ensures-bind P (recovered_vault a c) _ λ (v, c1) recovered.
            Ensures-bind P (add_at c1.total_boost j 1) _ λ total _.
              Ensures-bind P
                (recompute_stake parse (record v { boost_nft = ids })
                  (record c1 { total_boost = total }))
                _
                λ (w, c2) counted. put_recomputed-IsAccounted parse i a _ _ counted (
                  kept-Owes parse i a _ _ _ c1 _ (ground arith)
                    (recovered-OwesFor parse i a c recovered h)))
          (λ _. h)
