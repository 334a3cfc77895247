-- ===== src/P4Farm/Emission/Earnings.antt =====
-- What the vaults of the P4 farm are owed, across staking an NFT and a harvest (p4-farm-nft/src/vault.rs,
-- lib.rs).
use cheddar.Prelude.{
  ℕ, zero, suc, Bool, ◌+◌, ◌*◌, ◌≤◌, ◌≡◌, refl, List, ok, arith, Ensures, Ensures-bind, Ensures-at,
  Ensures-intro, assert, leb, some,
}
use cheddar.Near.{Env, AccountId, Balance}
use cheddar.Near.LookupMap.{get, insert, get-insert, sum_by}
use cheddar.P3Lib.{acc_overflow, find_acc_idx, add_at}
use cheddar.P4Farm.State.{ParseAccount, TokenId, Vault, Contract, Promise}
use cheddar.P4Farm.Identifiers.{expected_cheddar_stake}
use cheddar.P4Farm.Rewards.{
  current_round, ping_all, put_vault, recompute_stake, adjust_units, get_vault,
  get_number_of_staked_tokens,
}
use cheddar.P4Farm.Staking.{nft_stake, withdraw_crop}
use cheddar.P4Farm.Transfers.{push_at, send_crop, withdraw_crop_from, transfer_farmed_tokens}
use cheddar.P4Farm.Accounts.{units_of}
use cheddar.P4Farm.Accounts.Changes.{ping_all_inv, recompute_stake_inv}
use cheddar.P4Farm.Accounts.Closing.{get_vault_inv}
use cheddar.P4Farm.Accounts.Exits.{FirstSame, send_crop-SameTotals}
use cheddar.P4Farm.Emission.{IsStarted, owed_all, emitted, put_pinged-owed}

pub recompute_stake-keeps_rewards :
    (parse : ParseAccount) (v : Vault) (c : Contract) {r : Vault × Contract}
    → recompute_stake parse v c ≡ ok r
    → (r.0.reward_acc ≡ v.reward_acc) × (r.0.farmed ≡ v.farmed) × (r.1.reward_acc ≡ c.reward_acc)
unfolding recompute_stake adjust_units
recompute_stake-keeps_rewards parse v c {r} e = ground arith

withdraw_crop_from-keeps_acc :
    (n i : ℕ) (a : AccountId) (x : Balance) (c : Contract) {r : Contract × List Promise}
    → withdraw_crop_from n i a x c ≡ ok r
    → r.0.reward_acc ≡ c.reward_acc
unfolding withdraw_crop_from transfer_farmed_tokens
withdraw_crop_from-keeps_acc zero i a x c {r} e = ground arith
withdraw_crop_from-keeps_acc (suc n) i a x c {r} e = grind (arith, withdraw_crop_from-keeps_acc n)

send_crop-keeps_acc :
    (a : AccountId) (x : Balance) (c : Contract) {r : Contract × List Promise}
    → send_crop a x c ≡ ok r
    → r.0.reward_acc ≡ c.reward_acc
unfolding send_crop
send_crop-keeps_acc a x c {r} e = grind (arith, withdraw_crop_from-keeps_acc)

abbrev pub EarnedAtMost {ℓ} : {B : Type ℓ} → ℕ → Contract → Contract × B → Type 0
EarnedAtMost r c d = owed_all d.0 ≤ owed_all c + emitted r c

-- Where staked_units is the sum over the vaults, once the farming has started or where nothing was emitted yet, staking an NFT that does
-- not panic adds to what the vaults are owed no more than the rounds since the last update emit.
pub nft_stake-EarnedAtMost :
    (parse : ParseAccount) (env : Env) (a nft : AccountId) (t : TokenId) (c : Contract) (r : ℕ)
    → sum_by units_of c.vaults ≡ c.staked_units
    → current_round env c ≡ ok r
    → IsStarted r c.reward_acc
    → Ensures (EarnedAtMost r c) (nft_stake parse env a nft t c)
unfolding nft_stake put_vault
nft_stake-EarnedAtMost parse env a nft t c r counted now started =
    let P = EarnedAtMost {B = Bool} r c in
    Ensures-bind P (find_acc_idx nft c.stake_nft_tokens) _ λ i _.
      Ensures-bind P (get_vault c a) _ λ v found.
        Ensures-bind P (get_number_of_staked_tokens v) _ λ n _.
          Ensures-bind P (expected_cheddar_stake n c.cheddar_rate) _ λ expected _.
            Ensures-bind P
              (assert (leb expected v.cheddar_staked)
                "You need to stake {} yoctoCheddar more to stake one more NFT token")
              _
              λ _ _. Ensures-bind P (ping_all env v c) _ λ (v1, c1) pinged.
                Ensures-bind P (push_at v1.staked i t) _ λ staked _.
                  Ensures-bind P (add_at c1.total_stake i 1) _ λ total _.
                    Ensures-bind P
                      (recompute_stake parse (record v1 { staked = staked })
                        (record c1 { total_stake = total }))
                      _
                      λ (v2, c2) recounted.
                        let kept = recompute_stake-keeps_rewards parse _ _ recounted in
                        let moved = recompute_stake_inv parse _ _ recounted in
                        let ping = ping_all_inv env v c pinged in
                        ground (
                          arith,
                          kept,
                          moved,
                          ping,
                          put_pinged-owed env a v c r v2 0 counted (get_vault_inv a c found) pinged
                              now started kept.0 (ground (arith, kept)),
                        )

-- What a harvest leaves: the vault empty of units, and what is owed less by those that were paid.
abbrev pub Harvested : AccountId → ℕ → Balance → Contract → Contract × List Promise → Type 0
Harvested a r paid c d =
    (owed_all d.0 + paid * acc_overflow ≤ owed_all c + emitted r c)
    × ((w : Vault) × (get a d.0.vaults ≡ some w) × (w.farmed ≡ 0))

-- Where staked_units is the sum over the vaults, once the farming has started or where nothing was emitted yet, a harvest that does not
-- panic pays the units that a ping gives the caller and takes them off the vault: what the farm owes
-- after it and what it paid are together no more than what it owed before and what the rounds since
-- the last update emit.
pub crop-Harvested :
    (env : Env) (v : Vault) (c : Contract) (r : ℕ) {v' : Vault} {c' : Contract}
    → sum_by units_of c.vaults ≡ c.staked_units
    → current_round env c ≡ ok r
    → IsStarted r c.reward_acc
    → get env.predecessor_account_id c.vaults ≡ some v
    → ping_all env v c ≡ ok (v', c')
    → Ensures (Harvested env.predecessor_account_id r v'.farmed c) (withdraw_crop env c)
unfolding withdraw_crop put_vault get_vault
crop-Harvested env v c r {v'} {c'} counted now started found pinged =
    let a = env.predecessor_account_id in
    Ensures-intro (Harvested a r v'.farmed c) _ λ d done.
      let put = record c' { vaults = insert a (record v' { farmed = 0 }) c'.vaults } in
      let sent : send_crop a v'.farmed put ≡ ok d = ground (arith, found, pinged) in
      let same = Ensures-at (FirstSame put) _ (send_crop-SameTotals a v'.farmed put) sent in
      let left = get-insert a a (record v' { farmed = 0 }) c'.vaults in
      (
        ground (
          arith,
          same,
          send_crop-keeps_acc _ _ _ sent,
          ping_all_inv env v c pinged,
          put_pinged-owed env a v c r (record v' { farmed = 0 }) v'.farmed counted found pinged now
              started refl (omega arith),
        ),
        (record v' { farmed = 0 }, ground (arith, left, same), refl),
      )
