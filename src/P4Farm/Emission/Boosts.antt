-- ===== src/P4Farm/Emission/Boosts.antt =====
-- What the vaults of the P4 farm are owed, across staking and taking back a boost NFT and taking back one
-- NFT (p4-farm-nft/src/vault.rs, lib.rs).
use cheddar.Prelude.{
  ℕ, ◌+◌, ◌≤◌, ◌≡◌, refl, Bool, not, List, ok, arith, Ensures, Ensures-bind, Ensures-at, Ensures-if,
  assert, some, set,
}
use cheddar.Near.{Env, AccountId}
use cheddar.Near.LookupMap.{get, sum_by}
use cheddar.P3Lib.{find_acc_idx, add_at, sub_at, index}
use cheddar.P4Farm.State.{ParseAccount, TokenId, Vault, Contract, Promise}
use cheddar.P4Farm.Identifiers.{is_empty, decimal, join_ids, extract_contract_token_ids}
use cheddar.P4Farm.Rewards.{current_round, ping_all, put_vault, recompute_stake, get_vault}
use cheddar.P4Farm.Staking.{
  put_boost, boost_stake, send_boost_nft, withdraw_boost_nft, assert_one_yocto, unstake_one,
  remove_elem,
}
use cheddar.P4Farm.Transfers.{transfer_staked_nft}
use cheddar.P4Farm.Accounts.{units_of}
use cheddar.P4Farm.Accounts.Changes.{ping_all_inv, recompute_stake_inv}
use cheddar.P4Farm.Accounts.Closing.{get_vault_inv}
use cheddar.P4Farm.Emission.{IsStarted, owed_all, emitted, put_pinged-owed}
use cheddar.P4Farm.Emission.Earnings.{EarnedAtMost, recompute_stake-keeps_rewards}

-- After a ping the vault is changed, but for its rewards, counted again and stored.
pub restored-owed :
    (parse : ParseAccount) (env : Env) (a : AccountId) (v : Vault) (c : Contract) (r : ℕ)
    {v1 : Vault} {c1 : Contract} (w : Vault) (d : Contract) {v2 : Vault} {c2 : Contract}
    → sum_by units_of c.vaults ≡ c.staked_units
    → get a c.vaults ≡ some v
    → ping_all env v c ≡ ok (v1, c1)
    → current_round env c ≡ ok r
    → IsStarted r c.reward_acc
    → recompute_stake parse w d ≡ ok (v2, c2)
    → (w.reward_acc ≡ v1.reward_acc) × (w.farmed ≡ v1.farmed)
    → (d.reward_acc ≡ c1.reward_acc) × (d.vaults ≡ c1.vaults)
    → owed_all (put_vault a v2 c2) ≤ owed_all c + emitted r c
unfolding put_vault
restored-owed parse env a v c r {v1} {c1} w d {v2} {c2} counted found pinged now started recounted
      same kept =
    let rewards = recompute_stake-keeps_rewards parse w d recounted in
    ground (
      arith,
      rewards,
      recompute_stake_inv parse w d recounted,
      ping_all_inv env v c pinged,
      put_pinged-owed env a v c r v2 0 counted found pinged now started
          (ground (arith, rewards, same)) (ground (arith, rewards, same)),
    )

module _ (parse : ParseAccount) (env : Env) (a : AccountId) (c : Contract) (r : ℕ)
    (counted : sum_by units_of c.vaults ≡ c.staked_units) (now : current_round env c ≡ ok r)
    (started : IsStarted r c.reward_acc) where
  pub boost_stake-EarnedAtMost :
      (nft : AccountId) (t : TokenId) → Ensures (EarnedAtMost r c) (boost_stake parse env a nft t c)
  unfolding boost_stake put_boost
  boost_stake-EarnedAtMost nft t =
      let P = EarnedAtMost {B = Bool} r c in
      Ensures-bind P (find_acc_idx nft c.boost_nft_contracts) _ λ i _.
        Ensures-bind P (get_vault c a) _ λ v found.
          Ensures-if P (is_empty v.boost_nft) _ _
            (λ _. Ensures-bind P (ping_all env v c) _ λ (v1, c1) pinged.
              Ensures-bind P (add_at c1.total_boost i 1) _ λ total _.
                Ensures-bind P
                  (recompute_stake parse (record v1 { boost_nft = join_ids (decimal i) t })
                    (record c1 { total_boost = total }))
                  _
                  λ (v2, c2) recounted.
                    restored-owed parse env a v c r _ _ counted (get_vault_inv a c found) pinged now
                      started recounted (refl, refl) (refl, refl))
            (λ _. omega arith)

  -- The boost NFT goes back; with the contract comes the vault as it is stored.
  send_boost_nft-EarnedAtMost :
      (v : Vault)
      → get a c.vaults ≡ some v
      → Ensures
          (λ (t : Vault × Contract × List Promise). owed_all t.1 ≤ owed_all c + emitted r c)
          (send_boost_nft parse env a v c)
  unfolding send_boost_nft
  send_boost_nft-EarnedAtMost v found =
      let P = λ (t : Vault × Contract × List Promise). owed_all t.1 ≤ owed_all c + emitted r c in
      Ensures-bind P (assert (not (is_empty v.boost_nft)) "Sender has no NFT deposit") _ λ _ _.
        Ensures-bind P (ping_all env v c) _ λ (v1, c1) pinged.
          Ensures-bind P (extract_contract_token_ids parse v1.boost_nft) _ λ (boost, token) _.
            Ensures-bind P (find_acc_idx boost c1.boost_nft_contracts) _ λ i _.
              Ensures-bind P (sub_at c1.total_boost i 1) _ λ total _.
                Ensures-bind P
                  (recompute_stake parse (record v1 { boost_nft = "" })
                    (record c1 { total_boost = total }))
                  _
                  λ (v2, c2) recounted.
                    restored-owed parse env a v c r _ _ counted found pinged now started recounted
                      (refl, refl) (refl, refl)

  pub unstake_one-EarnedAtMost :
      (i k : ℕ) (t : TokenId) (v : Vault)
      → get a c.vaults ≡ some v
      → Ensures
          (λ (t : Contract × List TokenId × List Promise). owed_all t.0 ≤ owed_all c + emitted r c)
          (unstake_one parse env a i k t v c)
  unfolding unstake_one transfer_staked_nft
  unstake_one-EarnedAtMost i k t v found =
      let P =
        λ (t : Contract × List TokenId × List Promise). owed_all t.0 ≤ owed_all c + emitted r c in
      Ensures-bind P (ping_all env v c) _ λ (v1, c1) pinged.
        Ensures-bind P (index v1.staked i) _ λ ts _.
          Ensures-bind P
            (recompute_stake parse (record v1 { staked = set v1.staked i (remove_elem ts k) }) c1) _
            λ (v2, c2) recounted.
              Ensures-bind P (transfer_staked_nft a i t (put_vault a v2 c2)) _ λ (c3, ps) sent.
                ground (
                  arith,
                  sent,
                  restored-owed parse env a v c r
                      (record v1 { staked = set v1.staked i (remove_elem ts k) }) c1 counted found
                      pinged now started recounted (refl, refl) (refl, refl),
                )

pub withdraw_boost_nft-EarnedAtMost :
    (parse : ParseAccount) (env : Env) (c : Contract) (r : ℕ)
    → sum_by units_of c.vaults ≡ c.staked_units
    → current_round env c ≡ ok r
    → IsStarted r c.reward_acc
    → Ensures (EarnedAtMost r c) (withdraw_boost_nft parse env c)
unfolding withdraw_boost_nft
withdraw_boost_nft-EarnedAtMost parse env c r counted now started =
    let a = env.predecessor_account_id in
    let P = EarnedAtMost {B = List Promise} r c in
    Ensures-bind P (assert_one_yocto env) _ λ _ _. Ensures-bind P (get_vault c a) _ λ v found.
      Ensures-bind P (send_boost_nft parse env a v c) _ λ (w, d, ps) sent.
        Ensures-at
          (λ (t : Vault × Contract × List Promise). owed_all t.1 ≤ owed_all c + emitted r c) _
          (send_boost_nft-EarnedAtMost parse env a c r counted now started v
            (get_vault_inv a c found))
          sent
