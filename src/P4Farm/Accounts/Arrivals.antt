-- ===== src/P4Farm/Accounts/Arrivals.antt =====
-- The totals of the P4 farm across staking, new accounts and the callbacks (p4-farm-nft/src/lib.rs,
-- vault.rs).
use cheddar.Prelude.{
  ℕ, ◌≤◌, ◌≡◌, none, List, ok, arith, leb, assert, Ensures, Ensures-bind, Ensures-if, Bool,
}
use cheddar.Prelude.Words.{add_u128, add_u128_inv, add_u64}
use cheddar.Near.{Env, AccountId, Balance}
use cheddar.Near.LookupMap.{get, All-get}
use cheddar.P3Lib.{find_acc_idx, add_at}
use cheddar.P4Farm.State.{TokenId, ParseAccount, Vault, Contract}
use cheddar.P4Farm.Identifiers.{is_empty, decimal, join_ids, expected_cheddar_stake}
use cheddar.P4Farm.Rewards.{
  ping_all, recompute_stake, put_vault, get_vault, get_number_of_staked_tokens, new_vault,
}
use cheddar.P4Farm.Transfers.{push_at}
use cheddar.P4Farm.Staking.{assert_is_active, stake_cheddar, nft_stake, put_boost, boost_stake}
use cheddar.P4Farm.Methods.{create_account}
use cheddar.P4Farm.Counts.{total_at-add_at, nfts_at-push_at}
use cheddar.P4Farm.Accounts.{
  IsRated, IsAccounted, OwesFor, put-IsAccounted, found-OwesFor, kept-Owes, kept-IsAccounted,
}
use cheddar.P4Farm.Accounts.Changes.{put_recomputed-IsAccounted, pinged-OwesFor}
use cheddar.P4Farm.Accounts.Fresh.{new_vault-IsRated, fresh-OwesFor}
use cheddar.P4Farm.Accounts.Closing.{get_vault_inv}
use cheddar.P4Farm.Accounts.Departures.{FirstAccounted}

module _ (parse : ParseAccount) (i : ℕ) where
  -- One more NFT in the vault and in the total.
  pushed-OwesFor :
      (a : AccountId) (j : ℕ) (t : TokenId) (v : Vault) (c : Contract) {ys : List (List TokenId)}
      {total : List Balance}
      → push_at v.staked j t ≡ ok ys
      → add_at c.total_stake j 1 ≡ ok total
      → OwesFor parse i a v c
      → OwesFor parse i a (record v { staked = ys }) (record c { total_stake = total })
  pushed-OwesFor a j t v c {ys} {total} pushed more h = ground (
    arith,
    h.units,
    h.nfts,
    h.cheddar,
    h.rated,
    h.in_range,
    h.one_rate_each,
    h.has_rate,
    nfts_at-push_at i j t v.staked pushed,
    total_at-add_at i j 1 c.total_stake more,
  )

  pub nft_stake-IsAccounted :
      (env : Env) (a nft : AccountId) (t : TokenId) (c : Contract)
      → IsAccounted parse i c
      → Ensures (FirstAccounted parse i) (nft_stake parse env a nft t c)
  unfolding nft_stake
  nft_stake-IsAccounted env a nft t c h =
      let P = FirstAccounted parse i {B = Bool} in
      Ensures-bind P (find_acc_idx nft c.stake_nft_tokens) _ λ j _.
        Ensures-bind P (get_vault c a) _ λ v found.
          Ensures-bind P (get_number_of_staked_tokens v) _ λ n _.
            Ensures-bind P (expected_cheddar_stake n c.cheddar_rate) _ λ expected _.
              Ensures-bind P (assert (leb expected v.cheddar_staked) _) _ λ _ _.
                Ensures-bind P (ping_all env v c) _ λ (v1, c1) pinged.
                  Ensures-bind P (push_at v1.staked j t) _ λ staked pushed.
                    Ensures-bind P (add_at c1.total_stake j 1) _ λ total more.
                      Ensures-bind P
                        (recompute_stake parse (record v1 { staked = staked })
                          (record c1 { total_stake = total }))
                        _
                        λ (v2, c2) counted. put_recomputed-IsAccounted parse i a _ _ counted (
                          pushed-OwesFor a j t v1 c1 pushed more (
                            pinged-OwesFor parse i env a v c pinged
                              (found-OwesFor parse i a v c h (get_vault_inv a c found))))

  put_boost-IsAccounted :
      (env : Env) (a : AccountId) (v : Vault) (j : ℕ) (t : TokenId) (c : Contract)
      → OwesFor parse i a v c
      → Ensures (FirstAccounted parse i) (put_boost parse env a v j t c)
  unfolding put_boost
  put_boost-IsAccounted env a v j t c h =
      let P = FirstAccounted parse i {B = Bool} in
      Ensures-bind P (ping_all env v c) _ λ (v1, c1) pinged.
        Ensures-bind P (add_at c1.total_boost j 1) _ λ total _.
          Ensures-bind P
            (recompute_stake parse (record v1 { boost_nft = join_ids (decimal j) t })
              (record c1 { total_boost = total }))
            _
            λ (v2, c2) counted. put_recomputed-IsAccounted parse i a _ _ counted (
              kept-Owes parse i a _ _ _ c1 _ (ground arith)
                (pinged-OwesFor parse i env a v c pinged h))

  pub boost_stake-IsAccounted :
      (env : Env) (a nft : AccountId) (t : TokenId) (c : Contract)
      → IsAccounted parse i c
      → Ensures (FirstAccounted parse i) (boost_stake parse env a nft t c)
  unfolding boost_stake
  boost_stake-IsAccounted env a nft t c h =
      let P = FirstAccounted parse i {B = Bool} in
      Ensures-bind P (find_acc_idx nft c.boost_nft_contracts) _ λ j _.
        Ensures-bind P (get_vault c a) _ λ v found.
          Ensures-if P (is_empty v.boost_nft) _ _
            (λ _.
              put_boost-IsAccounted env a v j t c
                (found-OwesFor parse i a v c h (get_vault_inv a c found)))
            (λ _. h)

  pub stake_cheddar-IsAccounted :
      (a : AccountId) (x : Balance) (c : Contract)
      → IsAccounted parse i c
      → Ensures (IsAccounted parse i) (stake_cheddar a x c)
  unfolding stake_cheddar
  stake_cheddar-IsAccounted a x c h =
      let P = IsAccounted parse i in
      Ensures-bind P (assert_is_active c) _ λ _ _. Ensures-bind P (get_vault c a) _ λ v found.
        Ensures-bind P (assert (leb x c.cheddar_rate) _) _ λ _ enough.
          Ensures-bind P (add_u128 v.cheddar_staked x) _ λ staked more.
            Ensures-bind P (add_u128 c.total_cheddar_stake c.cheddar_rate) _ λ total raised.
              let owed = found-OwesFor parse i a v c h (get_vault_inv a c found) in
              let fits : x ≤ c.cheddar_rate = ground arith in
              put-IsAccounted parse i a _ _
                (ground (
                  arith,
                  owed.units,
                  owed.nfts,
                  owed.cheddar,
                  owed.rated,
                  owed.in_range,
                  owed.one_rate_each,
                  owed.has_rate,
                  add_u128_inv v.cheddar_staked x more,
                  add_u128_inv c.total_cheddar_stake c.cheddar_rate raised,
                ))
                (ground
                  (arith, All-get (IsRated parse c) a c.vaults h.rated (get_vault_inv a c found)))

  pub create_account-IsAccounted :
      (a : AccountId) (c : Contract)
      → IsAccounted parse i c
      → get a c.vaults ≡ none
      → Ensures (IsAccounted parse i) (create_account a c)
  unfolding create_account
  create_account-IsAccounted a c h missing =
      Ensures-bind (IsAccounted parse i) (add_u64 c.accounts_registered 1) _ λ n _.
        kept-IsAccounted parse i (put_vault a (new_vault c) c) _ (ground arith) (
          put-IsAccounted parse i a (new_vault c) c (fresh-OwesFor parse i a c h missing)
            (new_vault-IsRated parse c h.one_rate_each h.has_rate))
