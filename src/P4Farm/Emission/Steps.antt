-- ===== src/P4Farm/Emission/Steps.antt =====
-- What single calls of the P4 farm (p4-farm-nft/src) leave owed: those that bring no rewards up to date
-- leave it as it is, and the receiver of NFTs adds no more than the rounds emit.
use mathlib.Core.Path.{ap₂}
use cheddar.Prelude.{
  ℕ, ◌≡◌, refl, ◌!=◌, ◌==◌, Bool, Option, some, ok, arith, inl, inr, Option-cases, Ensures,
  Ensures-bind, Ensures-at, Ensures-intro, get_or, assert, ltb, leb,
}
use cheddar.Prelude.Words.{add_u128}
use cheddar.Near.{Env, AccountId, Balance}
use cheddar.Near.LookupMap.{get, contains_key, sum_by, sum_by-insert}
use cheddar.P4Farm.State.{TokenId, ParseAccount, Vault, Contract, fresh_vault}
use cheddar.P4Farm.Rewards.{current_round, put_vault, new_vault, get_vault}
use cheddar.P4Farm.Transfers.{transfer_farmed_tokens}
use cheddar.P4Farm.Staking.{
  assert_is_active, stake_cheddar, nft_stake, boost_stake, withdraw_farmed_recovered,
}
use cheddar.P4Farm.Setup.{setup_deposit}
use cheddar.P4Farm.Methods.{
  TransferInstruction, to_farm, to_boost, unknown, DepositMsg, setup_reward_deposit, cheddar_stake,
  other_msg, ft_on_transfer, nft_on_transfer, storage_deposit, create_account,
}
use cheddar.P4Farm.Accounts.{units_of}
use cheddar.P4Farm.Accounts.Closing.{get_vault_inv}
use cheddar.P4Farm.Emission.{IsStarted, owed, owed_all}
use cheddar.P4Farm.Emission.Earnings.{EarnedAtMost, nft_stake-EarnedAtMost}
use cheddar.P4Farm.Emission.Boosts.{boost_stake-EarnedAtMost}

pub kept-owed :
    (c d : Contract) → d.vaults ≡ c.vaults → d.reward_acc ≡ c.reward_acc → owed_all d ≡ owed_all c
kept-owed c d vaults acc = ap₂ (λ x m. sum_by (owed x) m) acc vaults

-- A vault that changes but for its rewards, and one that is registered.
put_same-owed :
    (a : AccountId) (v w : Vault) (c : Contract)
    → get a c.vaults ≡ some v
    → (w.farmed ≡ v.farmed) × (w.min_stake ≡ v.min_stake) × (w.reward_acc ≡ v.reward_acc)
    → owed_all (put_vault a w c) ≡ owed_all c
unfolding put_vault owed
put_same-owed a v w c found same =
    ground (arith, found, same, sum_by-insert (owed c.reward_acc) a w c.vaults)

stake_cheddar-owed :
    (a : AccountId) (x : Balance) (c : Contract)
    → Ensures (λ d. owed_all d ≡ owed_all c) (stake_cheddar a x c)
unfolding stake_cheddar
stake_cheddar-owed a x c =
    let P = λ (d : Contract). owed_all d ≡ owed_all c in
    Ensures-bind P (assert_is_active c) _ λ _ _. Ensures-bind P (get_vault c a) _ λ v found.
      Ensures-bind P (assert (leb x c.cheddar_rate) _) _ λ _ _.
        Ensures-bind P (add_u128 v.cheddar_staked x) _ λ staked _.
          Ensures-bind P (add_u128 c.total_cheddar_stake c.cheddar_rate) _ λ total _.
            put_same-owed a v (record v { cheddar_staked = staked })
              (record c { total_cheddar_stake = total }) (get_vault_inv a c found)
              (refl, refl, refl)

-- The vaults are owed the same.
abbrev pub SameOwed {ℓ} : {B : Type ℓ} → Contract → Contract × B → Type 0
SameOwed c r = owed_all r.0 ≡ owed_all c

pub ft_on_transfer-owed :
    (env : Env) (sender : AccountId) (x : Balance) (msg : DepositMsg) (c : Contract)
    → Ensures (SameOwed c) (ft_on_transfer env sender x msg c)
unfolding ft_on_transfer setup_deposit
ft_on_transfer-owed env sender x setup_reward_deposit c =
    Ensures-intro (SameOwed c) _ λ t done. kept-owed c t.0 (ground arith) (ground arith)
ft_on_transfer-owed env sender x cheddar_stake c =
    Ensures-bind (SameOwed c) (assert (ltb 0 x) _) _ λ _ _.
      Ensures-bind (SameOwed c) (stake_cheddar sender x c) _ λ d done.
        Ensures-at (λ (d : Contract). owed_all d ≡ owed_all c) _ (stake_cheddar-owed sender x c)
          done
ft_on_transfer-owed env sender x (other_msg m) c =
    Ensures-bind (SameOwed c) (assert (ltb 0 x) _) _ λ _ _. refl

pub storage_deposit-owed :
    (env : Env) (who : Option AccountId) (c : Contract)
    → Ensures (SameOwed c) (storage_deposit env who c)
unfolding storage_deposit create_account contains_key put_vault new_vault fresh_vault owed
storage_deposit-owed env who c = Ensures-intro (SameOwed c) _ λ t done.
    let a = get_or who env.predecessor_account_id in
    elim (Option-cases (get a c.vaults)) [
      | inl missing ↦
          (let same = kept-owed (put_vault a (new_vault c) c) t.0 (ground arith) (ground arith) in
            ground
              (arith, same, missing, sum_by-insert (owed c.reward_acc) a (new_vault c) c.vaults))
      | inr (v, found) ↦ kept-owed c t.0 (ground arith) (ground arith)
    ]

pub withdraw_farmed_recovered-owed :
    (env : Env) (token : AccountId) (c : Contract)
    → Ensures (SameOwed c) (withdraw_farmed_recovered env token c)
unfolding withdraw_farmed_recovered transfer_farmed_tokens
withdraw_farmed_recovered-owed env token c =
    Ensures-intro (SameOwed c) _ λ t done. kept-owed c t.0 (ground arith) (ground arith)

pub nft_on_transfer-EarnedAtMost :
    (parse : ParseAccount) (env : Env) (owner : AccountId) (t : TokenId) (msg : TransferInstruction)
    (c : Contract) (r : ℕ)
    → sum_by units_of c.vaults ≡ c.staked_units
    → current_round env c ≡ ok r
    → IsStarted r c.reward_acc
    → Ensures (EarnedAtMost r c) (nft_on_transfer parse env owner t msg c)
unfolding nft_on_transfer
nft_on_transfer-EarnedAtMost parse env owner t to_farm c r counted now started =
    let P = EarnedAtMost {B = Bool} r c in
    let nft = env.predecessor_account_id in
    Ensures-bind P (assert (nft != env.signer_account_id) _) _ λ _ _.
      Ensures-bind P (assert (owner == env.signer_account_id) _) _ λ _ _.
        Ensures-bind P (assert_is_active c) _ λ _ _.
          Ensures-bind P (nft_stake parse env owner nft t c) _ λ d done.
            Ensures-at P _ (nft_stake-EarnedAtMost parse env owner nft t c r counted now started)
              done
nft_on_transfer-EarnedAtMost parse env owner t to_boost c r counted now started =
    let P = EarnedAtMost {B = Bool} r c in
    let nft = env.predecessor_account_id in
    Ensures-bind P (assert (nft != env.signer_account_id) _) _ λ _ _.
      Ensures-bind P (assert (owner == env.signer_account_id) _) _ λ _ _.
        Ensures-bind P (assert_is_active c) _ λ _ _.
          Ensures-bind P (boost_stake parse env owner nft t c) _ λ d done.
            Ensures-at P _ (boost_stake-EarnedAtMost parse env owner c r counted now started nft t)
              done
nft_on_transfer-EarnedAtMost parse env owner t unknown c r counted now started =
    let P = EarnedAtMost {B = Bool} r c in
    Ensures-bind P (assert (env.predecessor_account_id != env.signer_account_id) _) _
      λ _ _. Ensures-bind P (assert (owner == env.signer_account_id) _) _ λ _ _. omega arith
