-- ===== src/P4Farm/Emission/Exits.antt =====
-- What the calls of the P4 farm that pay a crop (p4-farm-nft/src/lib.rs, storage_management.rs) leave owed.
use mathlib.Core.Path.{ap₂}
use cheddar.Prelude.{
  Option-cases, Result-cases, ℕ, ◌+◌, ◌*◌, ◌≤◌, ◌≡◌, Bool, false, none, some, Option, List, Result,
  ok, panic, arith, Ensures, Ensures-bind, Ensures-at, Ensures-if, Ensures-intro, assert, leb, ◌==◌,
  get_or, inl, inr, if◌then◌else◌,
}
use cheddar.Near.{Env, AccountId, Balance}
use cheddar.Near.LookupMap.{get, remove, sum_by, All, All-get}
use cheddar.P3Lib.{acc_overflow, find_acc_idx, index}
use cheddar.P4Farm.State.{ParseAccount, TokenId, Vault, Contract, Promise}
use cheddar.P4Farm.Identifiers.{find_token_idx, nft_units_max_transfer_num}
use cheddar.P4Farm.Rewards.{
  current_round, ping_all, get_vault, is_empty_vault, get_number_of_staked_tokens,
}
use cheddar.P4Farm.Staking.{
  unregister, pay_out, close, unstake, withdraw_crop, assert_is_active, assert_one_yocto,
}
use cheddar.P4Farm.Methods.{storage_unregister}
use cheddar.P4Farm.Accounts.{units_of, IsRated}
use cheddar.P4Farm.Accounts.Closing.{get_vault_inv}
use cheddar.P4Farm.Emission.{IsStarted, owed, owed_all, emitted}
use cheddar.P4Farm.Emission.Earnings.{crop-Harvested, Harvested}
use cheddar.P4Farm.Emission.Boosts.{unstake_one-EarnedAtMost}
use cheddar.P4Farm.Accounts.Changes.{ping_all_inv}
use cheddar.P4Farm.Emission.Others.{ping_all-keeps_rounds}
use cheddar.P4Farm.Emission.Closing.{others, pay_out-Paid, Reduced-Paid}

-- The units that a ping gives the vault.
unfoldable pub crop_after : Env → Vault → Contract → Balance
crop_after env v c = elim (ping_all env v c) [ ok (v', _) ↦ v'.farmed | panic _ ↦ 0 ]

-- The units that the caller is paid by a harvest or a closing.
unfoldable pub crop_of : Env → Contract → Balance
unfolding crop_after
crop_of env c = elim (get env.predecessor_account_id c.vaults) [
  | none ↦ 0
  | some v ↦ crop_after env v c
]

-- The caller staked one NFT, so that taking it back closes the account.
abbrev stakes_one : Result ℕ → Bool
stakes_one (ok n) = n == 1
stakes_one (panic _) = false

unfoldable pub last_of : Env → Contract → Bool
last_of env c = elim (get env.predecessor_account_id c.vaults) [
  | none ↦ false
  | some v ↦ stakes_one (get_number_of_staked_tokens v)
]

-- What is owed after a call, with those units, and what the rounds until then emit.
abbrev pub PaidAtMost {ℓ} : {B : Type ℓ} → ℕ → Balance → Contract → Contract × B → Type 0
PaidAtMost r paid c d = owed_all d.0 + paid * acc_overflow ≤ owed_all c + emitted r c

gone-owed :
    (a : AccountId) (d : Contract) {e : Contract} → unregister a d ≡ ok e → owed_all e ≡ others a d
unfolding unregister
gone-owed a d {e} gone =
    ap₂ (λ x m. sum_by (owed x) m) (let same : e.reward_acc ≡ d.reward_acc = ground arith in same)
      (let left : e.vaults ≡ remove a d.vaults = ground arith in left)

module _ (parse : ParseAccount) (env : Env) (c : Contract) (r : ℕ)
    (counted : sum_by units_of c.vaults ≡ c.staked_units) (rated : All (IsRated parse c) c.vaults)
    (now : current_round env c ≡ ok r) (started : IsStarted r c.reward_acc) where
  pub withdraw_crop-PaidAtMost : Ensures (PaidAtMost r (crop_of env c) c) (withdraw_crop env c)
  unfolding withdraw_crop crop_of crop_after get_vault
  withdraw_crop-PaidAtMost =
      let P = PaidAtMost {B = List Promise} r (crop_of env c) c in
      Ensures-intro P _ λ d done. elim (Option-cases (get env.predecessor_account_id c.vaults)) [
        | inl missing ↦ absurd (ground arith)
        | inr (v, found) ↦ elim (Result-cases (ping_all env v c)) [
          | inl ((v1, c1), pinged) ↦ ground (
            arith,
            found,
            pinged,
            Ensures-at (Harvested env.predecessor_account_id r v1.farmed c) _
                (crop-Harvested env v c r counted now started found pinged) done,
          )
          | inr (msg, refused) ↦ absurd (ground arith)
        ]
      ]

  pub close-PaidAtMost : Ensures (PaidAtMost r (crop_of env c) c) (close parse env c)
  unfolding close crop_of crop_after is_empty_vault
  close-PaidAtMost =
      let a = env.predecessor_account_id in
      let P = PaidAtMost {B = List Promise} r (crop_of env c) c in
      Ensures-bind P (assert_is_active c) _ λ _ _. Ensures-bind P (assert_one_yocto env) _ λ _ _.
        Ensures-bind P (get_vault c a) _ λ v read.
          Ensures-bind P (get_number_of_staked_tokens v) _ λ n _.
            Ensures-bind P
              (assert (leb n nft_units_max_transfer_num)
                "Because of gas limit for single transaction action is not allowed.")
              _
              λ _ _. Ensures-bind P (ping_all env v c) _ λ (v1, c1) pinged.
                let found = get_vault_inv a c read in
                let crop : crop_of env c ≡ v1.farmed = ground (arith, found, pinged) in
                Ensures-if P (is_empty_vault v1) _ _
                  (λ _. Ensures-bind P (unregister a c1) _ λ c2 gone. ground (
                    arith,
                    crop,
                    gone-owed a c1 gone,
                    Reduced-Paid env a v c r counted found pinged now started c1 (
                        ground (
                          arith,
                          ping_all_inv env v c pinged,
                          ping_all-keeps_rounds env v c pinged,
                        )),
                  ))
                  (λ _. Ensures-bind P (pay_out parse env a v1 c1) _ λ (c2, ps) sent.
                    Ensures-bind P (unregister a c2) _ λ c3 gone.
                      let paid =
                        Ensures-at
                          (λ (t : Contract × List Promise).
                            others a t.0 + v1.farmed * acc_overflow ≤ owed_all c + emitted r c)
                          _
                          (pay_out-Paid env a v c r counted found pinged now started parse
                            (All-get (IsRated parse c) a c.vaults rated found))
                          sent in
                      ground (arith, crop, gone-owed a c2 gone, paid))

  pub storage_unregister-PaidAtMost :
      (force : Option Bool)
      → Ensures
          (λ (t : Contract × Bool × List Promise).
            owed_all t.0 + (if get_or force false then crop_of env c else 0) * acc_overflow
            ≤ owed_all c + emitted r c)
          (storage_unregister parse env force c)
  unfolding storage_unregister
  storage_unregister-PaidAtMost force =
      let P = λ (t : Contract × Bool × List Promise).
        owed_all t.0 + (if get_or force false then crop_of env c else 0) * acc_overflow
        ≤ owed_all c + emitted r c in
      Ensures-bind P (assert_one_yocto env) _ λ _ _.
        Ensures-if P (get_or force false) _ _
          (λ forced. Ensures-bind P (close parse env c) _ λ (d, ps) closed.
            ground (
              arith,
              forced,
              Ensures-at (PaidAtMost r (crop_of env c) c) _ close-PaidAtMost closed,
            ))
          (λ unforced. ground (arith, unforced))

  pub unstake-PaidAtMost :
      (nft : AccountId) (t : TokenId)
      → Ensures
          (λ (t : Contract × List TokenId × List Promise).
            owed_all t.0 + (if last_of env c then crop_of env c else 0) * acc_overflow
            ≤ owed_all c + emitted r c)
          (unstake parse env nft t c)
  unfolding unstake last_of
  unstake-PaidAtMost nft t =
      let a = env.predecessor_account_id in
      let P = λ (t : Contract × List TokenId × List Promise).
        owed_all t.0 + (if last_of env c then crop_of env c else 0) * acc_overflow
        ≤ owed_all c + emitted r c in
      Ensures-bind P (assert_is_active c) _ λ _ _. Ensures-bind P (assert_one_yocto env) _ λ _ _.
        Ensures-bind P (find_acc_idx nft c.stake_nft_tokens) _ λ i _.
          Ensures-bind P (get_vault c a) _ λ v read. Ensures-bind P (index v.staked i) _ λ ts _.
            Ensures-bind P (find_token_idx t ts) _ λ k _.
              Ensures-bind P (get_number_of_staked_tokens v) _ λ n many.
                let found = get_vault_inv a c read in
                Ensures-if P (n == 1) _ _
                  (λ one. Ensures-bind P (close parse env c) _ λ (d, ps) closed. ground (
                    arith,
                    found,
                    many,
                    one,
                    Ensures-at (PaidAtMost r (crop_of env c) c) _ close-PaidAtMost closed,
                  ))
                  (λ more. Ensures-intro P _ λ d done. ground (
                    arith,
                    found,
                    many,
                    more,
                    Ensures-at
                        (λ (t : Contract × List TokenId × List Promise).
                          owed_all t.0 ≤ owed_all c + emitted r c)
                        _
                        (unstake_one-EarnedAtMost parse env a c r counted now started i k t v found)
                        done,
                  ))
