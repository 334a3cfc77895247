-- ===== src/P3Farm/Units/Withdrawals.antt =====
-- The stake units across unstaking, the withdrawals of crop and Cheddies, and new accounts.
use cheddar.Prelude.{
  ℕ, ◌≡◌, String, Bool, List, none, some, ok, arith, inl, inr, Result-cases, ltb, leb, ◌==◌,
  Ensures, Ensures-intro, Ensures-bind, Ensures-at, Ensures-at, Ensures-if, ap, set, assert, not,
}
use cheddar.Prelude.Words.{add_u64, checked_sub}
use cheddar.Near.{Env, AccountId, Balance}
use cheddar.Near.LookupMap.{get, sum_by, All-get}
use cheddar.P3Lib.{find_acc_idx, add_at, sub_at, index, sum_u128}
use cheddar.P3Farm.State.{Vault, Contract, Promise, is_empty}
use cheddar.P3Farm.Rewards.{
  get_vault, ping_all, recompute_stake, put_vault, new_vault, recovered_vault, min_stake,
}
use cheddar.P3Farm.Transfers.{transfer_staked_tokens, recover_farmed}
use cheddar.P3Farm.Staking.{
  send_nft, close, assert_is_active, assert_one_yocto, unstake_part, unstake, withdraw_crop,
  withdraw_farmed_recovered,
}
use cheddar.P3Farm.Methods.{withdraw_nft, create_account, put_nft}
use cheddar.P3Farm.Units.{units_of, IsRated, IsCounted, SameUnits}
use cheddar.P3Farm.Units.Zeros.{new_vault-IsRated}
use cheddar.P3Farm.Units.Exits.{
  close-IsCounted, send_nft-GaveUp, GaveUp, send_crop-SameUnits, transfer_staked_tokens-SameUnits,
  transfer_farmed_tokens-SameUnits,
}
use cheddar.P3Farm.Units.Calls.{
  FirstCounted, get_vault_inv, put_recomputed-IsCounted, pinged-IsCountedWith, pinged-IsRated,
  unchanged_put-IsCounted, recovered-IsCountedWith, recovered-IsRated, fresh-IsCountedWith,
  found-IsCountedWith,
}

pub kept-IsCounted : (c d : Contract) → IsCounted c → SameUnits c d → IsCounted d
kept-IsCounted c d h same = ground (arith, h.counted, h.rated, h.one_rate_each, h.has_rate, same)

abbrev pub UnstakeCounted : Contract × Balance × List Promise → Type 0
UnstakeCounted r = IsCounted r.0

pub unstake-IsCounted :
    (env : Env) (token : AccountId) (x : Balance) (c : Contract)
    → IsCounted c
    → Ensures UnstakeCounted (unstake env token x c)
unfolding unstake unstake_part
unstake-IsCounted env token x c h =
    let a = env.predecessor_account_id in
    Ensures-bind UnstakeCounted (assert_is_active c) _ λ _ _.
      Ensures-bind UnstakeCounted (assert_one_yocto env) _ λ _ _.
        Ensures-bind UnstakeCounted (find_acc_idx token c.stake_tokens) _ λ i _.
          Ensures-bind UnstakeCounted (get_vault c a) _ λ v found.
            Ensures-bind UnstakeCounted (index v.staked i) _ λ held _.
              Ensures-bind UnstakeCounted (assert (leb x held) "E30: not enough staked tokens") _
                λ _ _. Ensures-bind UnstakeCounted (sum_u128 0 v.staked) _ λ total _.
                  Ensures-if UnstakeCounted (x == total) _ _
                    (λ _.
                      Ensures-bind UnstakeCounted (close env c) _
                        λ r closed. Ensures-at FirstCounted _ (close-IsCounted env c h) closed)
                    (λ _. Ensures-bind UnstakeCounted (ping_all env v c) _ λ (v1, c1) pinged.
                      Ensures-bind UnstakeCounted (index v1.staked i) _ λ now _.
                        Ensures-bind UnstakeCounted (checked_sub now x) _ λ remaining _.
                          Ensures-bind UnstakeCounted
                            (recompute_stake (record v1 { staked = set v1.staked i remaining }) c1)
                            _
                            λ (v2, c2) counted.
                              Ensures-bind UnstakeCounted
                                (transfer_staked_tokens a i x (put_vault a v2 c2)) _
                                λ r sent.
                                  let put = put_recomputed-IsCounted a _ c1 counted (
                                    pinged-IsCountedWith env a v c h (get_vault_inv a c found)
                                      pinged) in
                                  kept-IsCounted _ r.0 put
                                    (transfer_staked_tokens-SameUnits a i x _ sent))

pub withdraw_crop-IsCounted :
    (env : Env) (c : Contract) → IsCounted c → Ensures FirstCounted (withdraw_crop env c)
unfolding withdraw_crop put_vault
withdraw_crop-IsCounted env c h =
    let a = env.predecessor_account_id in
    Ensures-bind FirstCounted (assert_is_active c) _ λ _ _.
      Ensures-bind FirstCounted (get_vault c a) _ λ v found.
        Ensures-bind FirstCounted (ping_all env v c) _ λ (v1, c1) pinged.
          Ensures-intro FirstCounted _ λ r sent.
            kept-IsCounted (put_vault a (record v1 { farmed = 0 }) c1) r.0
              (unchanged_put-IsCounted a (record v1 { farmed = 0 }) c1
                (pinged-IsCountedWith env a v c h (get_vault_inv a c found) pinged)
                (pinged-IsRated env a v c h (get_vault_inv a c found) pinged))
              (send_crop-SameUnits _ _ _ sent)

pub withdraw_farmed_recovered-IsCounted :
    (env : Env) (token : AccountId) (c : Contract)
    → IsCounted c
    → Ensures FirstCounted (withdraw_farmed_recovered env token c)
unfolding withdraw_farmed_recovered
withdraw_farmed_recovered-IsCounted env token c h =
    let a = env.predecessor_account_id in
    Ensures-bind FirstCounted (assert_is_active c) _ λ _ _.
      Ensures-bind FirstCounted (get_vault c a) _ λ v _.
        Ensures-bind FirstCounted (find_acc_idx token c.farm_tokens) _ λ i _.
          Ensures-bind FirstCounted (index v.farmed_recovered i) _ λ x _.
            Ensures-bind FirstCounted (assert (ltb 0 x) "user {} balance is zero") _ λ _ _.
              Ensures-intro FirstCounted _
                λ r sent. kept-IsCounted c r.0 h (transfer_farmed_tokens-SameUnits _ _ _ _ sent)

pub recover_farmed-IsCounted :
    (a : AccountId) (i : ℕ) (x : Balance) (c : Contract)
    → IsCounted c
    → Ensures IsCounted (recover_farmed a i x c)
unfolding recover_farmed
recover_farmed-IsCounted a i x c h =
    Ensures-bind IsCounted (recovered_vault a c) _ λ (v, c1) recovered.
      Ensures-bind IsCounted (sub_at c1.total_harvested i x) _ λ total _.
        Ensures-bind IsCounted (add_at v.farmed_recovered i x) _ λ kept _.
          unchanged_put-IsCounted a (record v { farmed_recovered = kept })
            (record c1 { total_harvested = total }) (recovered-IsCountedWith a c h recovered)
            (recovered-IsRated a c h recovered)

-- The tokens of a counted vault have units.
rated-min_stake :
    (v : Vault) (rates : List ℕ) (boost : ℕ)
    → IsRated rates boost v
    → (s : Balance) × (min_stake v.staked rates ≡ ok s)
rated-min_stake v rates boost h = elim (Result-cases (min_stake v.staked rates)) [
  | inl known ↦ known
  | inr (m, refused) ↦ absurd (ground (arith, h))
]

pub withdraw_nft-IsCounted :
    (env : Env) (b : AccountId) (c : Contract)
    → IsCounted c
    → Ensures FirstCounted (withdraw_nft env b c)
unfolding withdraw_nft
withdraw_nft-IsCounted env b c h =
    let a = env.predecessor_account_id in
    Ensures-bind FirstCounted (assert_one_yocto env) _ λ _ _.
      Ensures-bind FirstCounted (get_vault c a) _ λ v found.
        Ensures-bind FirstCounted (send_nft env a v b c) _ λ (v2, c2, ps) sent.
          let rated =
            All-get (IsRated c.stake_rates c.cheddar_nft_boost) a c.vaults h.rated
              (get_vault_inv a c found) in
          let (s, e) = rated-min_stake v _ _ rated in
          let gave = Ensures-at (GaveUp v s c) _ (send_nft-GaveUp env a v b s c e) sent in
          unchanged_put-IsCounted a v2 c2
            (ground (
              arith,
              gave,
              found-IsCountedWith a v c h (get_vault_inv a c found),
              ap (sum_by units_of) gave.1,
            ))
            (ground (arith, gave))

pub create_account-IsCounted :
    (a : AccountId) (c : Contract)
    → IsCounted c
    → get a c.vaults ≡ none
    → Ensures IsCounted (create_account a c)
unfolding create_account
create_account-IsCounted a c h missing =
    Ensures-bind IsCounted (add_u64 c.accounts_registered 1) _ λ n _. ground (
      arith,
      unchanged_put-IsCounted a (new_vault c) (record c { accounts_registered = n })
          (fresh-IsCountedWith a c h missing) (new_vault-IsRated c h.one_rate_each h.has_rate),
    )

abbrev pub AnswerCounted : Contract × Bool → Type 0
AnswerCounted r = IsCounted r.0

pub put_nft-IsCounted :
    (env : Env) (a : AccountId) (v : Vault) (token_id : String) (c : Contract)
    → IsCounted c
    → get a c.vaults ≡ some v
    → Ensures AnswerCounted (put_nft env a v token_id c)
unfolding put_nft
put_nft-IsCounted env a v token_id c h found =
    Ensures-if AnswerCounted (not (is_empty v.cheddy)) _ _ (λ _. h)
      (λ _. Ensures-bind AnswerCounted (ping_all env v c) _ λ (v1, c1) pinged.
        Ensures-bind AnswerCounted (recompute_stake (record v1 { cheddy = token_id }) c1) _
          λ _ counted.
            put_recomputed-IsCounted a _ c1 counted (pinged-IsCountedWith env a v c h found pinged))
