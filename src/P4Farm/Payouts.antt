-- ===== src/P4Farm/Payouts.antt =====
-- What the P4 farm has paid of a farm token and what it has left (p4-farm-nft/src/lib.rs, vault.rs), for
-- each call.
pub mod Returned
pub mod Failed
use cheddar.Prelude.{
  ℕ, zero, suc, ◌+◌, ◌≤◌, ◌≡◌, Bool, true, String, List, ok, arith, leb, ltb, ◌==◌, assert, length,
  not, Ensures, Ensures-bind, Ensures-at, Ensures-if, Ensures-intro, Option-cases, inl, inr, none,
  some,
}
use cheddar.Prelude.Words.{add_u128, checked_sub}
use cheddar.Near.{Env, AccountId, Balance}
use cheddar.Near.LookupMap.{get}
use cheddar.P3Lib.{index, add_at, sub_at, safe_mul, find_acc_idx}
use cheddar.P4Farm.State.{TokenId, ParseAccount, Vault, Contract, Promise}
use cheddar.P4Farm.Identifiers.{
  is_empty, min_stake, extract_contract_token_ids, nft_units_max_transfer_num, join_ids, decimal,
  expected_cheddar_stake,
}
use cheddar.P4Farm.Rewards.{
  ping_all, update_reward_acc, recompute_stake, adjust_units, put_vault, get_vault, recovered_vault,
  get_number_of_staked_tokens, is_empty_vault,
}
use cheddar.P4Farm.Transfers.{
  transfer_farmed_tokens, withdraw_crop_from, send_crop, transfer_staked_nft,
  transfer_staked_cheddar, push_at,
}
use cheddar.P4Farm.Staking.{
  assert_is_active, stake_cheddar, nft_stake, put_boost, boost_stake, withdraw_crop,
  withdraw_farmed_recovered,
}
use cheddar.P4Farm.Counts.{total_at, total_at-add_at, total_at-sub_at}

-- The payouts, the deposits and the state of the setup are the same.
abbrev pub SamePayouts : Contract → Contract → Type 0
SamePayouts c d =
    (d.setup_finalized ≡ c.setup_finalized)
    × (d.total_harvested ≡ c.total_harvested)
    × (d.farm_deposits ≡ c.farm_deposits)

pub ping_all-SamePayouts :
    (env : Env) (v : Vault) (c : Contract) {r : Vault × Contract}
    → ping_all env v c ≡ ok r
    → SamePayouts c r.1
unfolding ping_all update_reward_acc
ping_all-SamePayouts env v c {r} e = ground arith

pub recompute_stake-SamePayouts :
    (parse : ParseAccount) (v : Vault) (c : Contract) {r : Vault × Contract}
    → recompute_stake parse v c ≡ ok r
    → SamePayouts c r.1
unfolding recompute_stake adjust_units
recompute_stake-SamePayouts parse v c {r} e = ground arith

pub recovered_vault-SamePayouts :
    (a : AccountId) (c : Contract) {r : Vault × Contract}
    → recovered_vault a c ≡ ok r
    → SamePayouts c r.1
unfolding recovered_vault
recovered_vault-SamePayouts a c {r} e = elim (Option-cases (get a c.vaults)) [
  | inl missing ↦ ground arith
  | inr (w, found) ↦ ground arith
]

module _ (i limit : ℕ) where
  -- After the setup, what was paid of the farm token and what is left of its deposit are within the
  -- limit.
  abbrev pub IsBacked : Contract → Type 0
  IsBacked c =
      (c.setup_finalized ≡ true)
      × (total_at i c.total_harvested + total_at i c.farm_deposits ≤ limit)

  abbrev pub FirstBacked {ℓ} : {B : Type ℓ} → Contract × B → Type 0
  FirstBacked r = IsBacked r.0

  -- What is paid is taken off the deposit.
  pub transfer_farmed_tokens-IsBacked :
      (a : AccountId) (j : ℕ) (x : Balance) (c : Contract)
      → IsBacked c
      → Ensures FirstBacked (transfer_farmed_tokens a j x c)
  unfolding transfer_farmed_tokens
  transfer_farmed_tokens-IsBacked a j x c h =
      let P = FirstBacked {B = List Promise} in
      Ensures-bind P (index c.farm_tokens j) _ λ token _.
        Ensures-bind P (add_at c.total_harvested j x) _ λ harvested more.
          Ensures-bind P (sub_at c.farm_deposits j x) _ λ deposits less. ground (
            arith,
            h,
            total_at-add_at i j x c.total_harvested more,
            total_at-sub_at i j x c.farm_deposits less,
          )

  withdraw_crop_from-IsBacked :
      (n j : ℕ) (a : AccountId) (x : Balance) (c : Contract)
      → IsBacked c
      → Ensures FirstBacked (withdraw_crop_from n j a x c)
  unfolding withdraw_crop_from
  withdraw_crop_from-IsBacked zero j a x c h = h
  withdraw_crop_from-IsBacked (suc n) j a x c h =
      let P = FirstBacked {B = List Promise} in
      Ensures-bind P (index c.farm_token_rates j) _ λ rate _.
        Ensures-bind P (safe_mul x rate) _ λ amount _.
          Ensures-bind P (transfer_farmed_tokens a j amount c) _ λ (c1, ps) sent.
            let one = Ensures-at P _ (transfer_farmed_tokens-IsBacked a j amount c h) sent in
            Ensures-bind P (withdraw_crop_from n (j + 1) a x c1) _ λ (c2, qs) rest.
              Ensures-at P _ (withdraw_crop_from-IsBacked n (j + 1) a x c1 one) rest

  pub send_crop-IsBacked :
      (a : AccountId) (x : Balance) (c : Contract)
      → IsBacked c
      → Ensures FirstBacked (send_crop a x c)
  unfolding send_crop
  send_crop-IsBacked a x c h =
      Ensures-if FirstBacked (x == 0) _ _ (λ _. h)
        (λ _. withdraw_crop_from-IsBacked (length c.farm_tokens) 0 a x c h)

  pub withdraw_crop-IsBacked :
      (env : Env) (c : Contract) → IsBacked c → Ensures FirstBacked (withdraw_crop env c)
  unfolding withdraw_crop put_vault
  withdraw_crop-IsBacked env c h =
      let a = env.predecessor_account_id in
      let P = FirstBacked {B = List Promise} in
      Ensures-bind P (assert_is_active c) _ λ _ _. Ensures-bind P (get_vault c a) _ λ v _.
        Ensures-bind P (ping_all env v c) _ λ (v1, c1) pinged.
          send_crop-IsBacked a v1.farmed (put_vault a (record v1 { farmed = 0 }) c1)
            (ground (arith, h, ping_all-SamePayouts env v c pinged))

  pub withdraw_farmed_recovered-IsBacked :
      (env : Env) (token : AccountId) (c : Contract)
      → IsBacked c
      → Ensures FirstBacked (withdraw_farmed_recovered env token c)
  unfolding withdraw_farmed_recovered
  withdraw_farmed_recovered-IsBacked env token c h =
      let a = env.predecessor_account_id in
      let P = FirstBacked {B = List Promise} in
      Ensures-bind P (assert_is_active c) _ λ _ _. Ensures-bind P (get_vault c a) _ λ v _.
        Ensures-bind P (find_acc_idx token c.farm_tokens) _ λ j _.
          Ensures-bind P (index v.farmed_recovered j) _ λ x _.
            Ensures-bind P (assert (ltb 0 x) "user {} balance is zero") _
              λ _ _. transfer_farmed_tokens-IsBacked a j x c h

  pub stake_cheddar-IsBacked :
      (a : AccountId) (x : Balance) (c : Contract)
      → IsBacked c
      → Ensures IsBacked (stake_cheddar a x c)
  unfolding stake_cheddar put_vault
  stake_cheddar-IsBacked a x c h = Ensures-bind IsBacked (assert_is_active c) _ λ _ _.
      Ensures-bind IsBacked (get_vault c a) _ λ v _.
        Ensures-bind IsBacked (assert (leb x c.cheddar_rate) _) _ λ _ _.
          Ensures-bind IsBacked (add_u128 v.cheddar_staked x) _ λ staked _.
            Ensures-bind IsBacked (add_u128 c.total_cheddar_stake c.cheddar_rate) _ λ total _. h

module _ (parse : ParseAccount) (i limit : ℕ) where
  pub nft_stake-IsBacked :
      (env : Env) (a nft : AccountId) (t : TokenId) (c : Contract)
      → IsBacked i limit c
      → Ensures (FirstBacked i limit) (nft_stake parse env a nft t c)
  unfolding nft_stake put_vault
  nft_stake-IsBacked env a nft t c h =
      let P = FirstBacked i limit {B = Bool} in
      Ensures-bind P (find_acc_idx nft c.stake_nft_tokens) _ λ j _.
        Ensures-bind P (get_vault c a) _ λ v _.
          Ensures-bind P (get_number_of_staked_tokens v) _ λ n _.
            Ensures-bind P (expected_cheddar_stake n c.cheddar_rate) _ λ expected _.
              Ensures-bind P (assert (leb expected v.cheddar_staked) _) _ λ _ _.
                Ensures-bind P (ping_all env v c) _ λ (v1, c1) pinged.
                  Ensures-bind P (push_at v1.staked j t) _ λ staked _.
                    Ensures-bind P (add_at c1.total_stake j 1) _ λ total _.
                      Ensures-bind P
                        (recompute_stake parse (record v1 { staked = staked })
                          (record c1 { total_stake = total }))
                        _
                        λ _ counted. ground (
                          arith,
                          h,
                          ping_all-SamePayouts env v c pinged,
                          recompute_stake-SamePayouts parse _ _ counted,
                        )

  pub boost_stake-IsBacked :
      (env : Env) (a nft : AccountId) (t : TokenId) (c : Contract)
      → IsBacked i limit c
      → Ensures (FirstBacked i limit) (boost_stake parse env a nft t c)
  unfolding boost_stake put_boost put_vault
  boost_stake-IsBacked env a nft t c h =
      let P = FirstBacked i limit {B = Bool} in
      Ensures-bind P (find_acc_idx nft c.boost_nft_contracts) _ λ j _.
        Ensures-bind P (get_vault c a) _ λ v _.
          Ensures-if P (is_empty v.boost_nft) _ _
            (λ _. Ensures-bind P (ping_all env v c) _ λ (v1, c1) pinged.
              Ensures-bind P (add_at c1.total_boost j 1) _ λ total _.
                Ensures-bind P
                  (recompute_stake parse (record v1 { boost_nft = join_ids (decimal j) t })
                    (record c1 { total_boost = total }))
                  _
                  λ _ counted. ground (
                    arith,
                    h,
                    ping_all-SamePayouts env v c pinged,
                    recompute_stake-SamePayouts parse _ _ counted,
                  ))
            (λ _. h)
