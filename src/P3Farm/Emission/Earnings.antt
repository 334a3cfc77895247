-- ===== src/P3Farm/Emission/Earnings.antt =====
-- What the vaults are owed, across the calls that change a stake or pay a crop.
use cheddar.Prelude.{
  ℕ, zero, suc, ◌+◌, ◌*◌, ◌≤◌, ◌<◌, ◌≡◌, refl, List, [], ok, ◌==◌, if◌then◌else◌, Ensures-at, arith,
  Ensures, Ensures-bind, Ensures-intro, assert, ltb, some,
}
use cheddar.Near.{Env, AccountId, Balance}
use cheddar.Near.LookupMap.{get, insert, get-insert}
use cheddar.P3Lib.{acc_overflow, find_acc_idx, add_at}
use cheddar.P3Farm.State.{Vault, Contract, Promise}
use cheddar.P3Farm.Rewards.{
  current_round, ping_all, put_vault, recompute_stake, adjust_units, get_vault, update_reward_acc,
}
use cheddar.P3Farm.Staking.{stake, withdraw_crop}
use cheddar.P3Farm.Transfers.{send_crop, withdraw_crop_from, transfer_farmed_tokens}
use cheddar.P3Farm.Units.{IsCounted, ping_all_inv, recompute_stake_inv}
use cheddar.P3Farm.Units.Calls.{get_vault_inv}
use cheddar.P3Farm.Units.Exits.{send_crop-SameUnits}
use cheddar.P3Farm.Emission.Crops.{crop, Pays, send_crop-Pays}
use cheddar.P3Farm.Emission.{owed_all, emitted, put_pinged-owed}

recompute_stake-keeps_rewards :
    (v : Vault) (c : Contract) {r : Vault × Contract}
    → recompute_stake v c ≡ ok r
    → (r.0.reward_acc ≡ v.reward_acc) × (r.0.farmed ≡ v.farmed) × (r.1.reward_acc ≡ c.reward_acc)
unfolding recompute_stake adjust_units
recompute_stake-keeps_rewards v c {r} e = ground arith

withdraw_crop_from-keeps_acc :
    (n i : ℕ) (a : AccountId) (x : Balance) (c : Contract) {r : Contract × List Promise}
    → withdraw_crop_from n i a x c ≡ ok r
    → r.0.reward_acc ≡ c.reward_acc
unfolding withdraw_crop_from transfer_farmed_tokens
withdraw_crop_from-keeps_acc zero i a x c {r} e = ground arith
withdraw_crop_from-keeps_acc (suc n) i a x c {r} e = grind (arith, withdraw_crop_from-keeps_acc n)

send_crop-keeps_acc :
    (a : AccountId) (x : Balance) (c : Contract) {r : Contract × List Promise}
    → send_crop a x c ≡ ok r
    → r.0.reward_acc ≡ c.reward_acc
unfolding send_crop
send_crop-keeps_acc a x c {r} e = grind (arith, withdraw_crop_from-keeps_acc)

abbrev pub EarnedAtMost {ℓ} : {B : Type ℓ} → ℕ → Contract → Contract × B → Type 0
EarnedAtMost r c d = owed_all d.0 ≤ owed_all c + emitted r c

-- In a counted farm, once the farming has started, staking that does not panic adds to what the vaults
-- are owed no more than the rounds since the last update emit.
pub stake-EarnedAtMost :
    (env : Env) (a token : AccountId) (x : Balance) (c : Contract) (r : ℕ)
    → IsCounted c
    → current_round env c ≡ ok r
    → 0 < r
    → Ensures (EarnedAtMost r c) (stake env a token x c)
unfolding stake put_vault
stake-EarnedAtMost env a token x c r h now started =
    Ensures-bind (EarnedAtMost r c) (assert (ltb 0 x) "staked amount must be positive") _ λ _ _.
      Ensures-bind (EarnedAtMost r c) (find_acc_idx token c.stake_tokens) _ λ i _.
        Ensures-bind (EarnedAtMost r c) (get_vault c a) _ λ v found.
          Ensures-bind (EarnedAtMost r c) (ping_all env v c) _ λ (v1, c1) pinged.
            Ensures-bind (EarnedAtMost r c) (add_at v1.staked i x) _ λ staked _.
              Ensures-bind (EarnedAtMost r c) (add_at c1.total_stake i x) _ λ total _.
                Ensures-bind (EarnedAtMost r c)
                  (recompute_stake (record v1 { staked = staked })
                    (record c1 { total_stake = total }))
                  _
                  λ (v2, c2) counted.
                    let kept = recompute_stake-keeps_rewards _ _ counted in
                    let moved = recompute_stake_inv _ _ counted in
                    ground (
                      arith,
                      kept,
                      moved.2,
                      ping_all_inv env v c pinged,
                      put_pinged-owed env a v c r v2 0 h.counted (get_vault_inv a c found) pinged
                          now started kept.0 (ground (arith, kept)),
                    )

ping_all-keeps_tokens :
    (env : Env) (v : Vault) (c : Contract) {v' : Vault} {c' : Contract}
    → ping_all env v c ≡ ok (v', c')
    → (c'.farm_tokens ≡ c.farm_tokens) × (c'.farm_token_rates ≡ c.farm_token_rates)
unfolding ping_all update_reward_acc
ping_all-keeps_tokens env v c {v'} {c'} e = grind arith

-- What a harvest leaves: the units sent once in every farm token, the vault empty of units, and what is
-- owed less by those that were paid.
abbrev pub Harvested : AccountId → ℕ → Balance → Contract → Contract × List Promise → Type 0
Harvested a r paid c d =
    (owed_all d.0 + paid * acc_overflow ≤ owed_all c + emitted r c)
    × ((w : Vault) × (get a d.0.vaults ≡ some w) × (w.farmed ≡ 0))
    × Pays (if paid == 0 then [] else crop a paid 0 c.farm_tokens c.farm_token_rates) d

-- In a counted farm, once the farming has started, a harvest that does not panic pays the units that a
-- ping gives the caller: where there are any, its promises are one payment to the caller for each farm
-- token, of what the units are worth at the rate of the token, and otherwise there are none. The units
-- are taken off the vault, and what the farm owes after it and what it paid are together no more than
-- what it owed before and what the rounds since the last update emit.
pub withdraw_crop-Harvested :
    (env : Env) (v : Vault) (c : Contract) (r : ℕ) {v' : Vault} {c' : Contract}
    → IsCounted c
    → current_round env c ≡ ok r
    → 0 < r
    → get env.predecessor_account_id c.vaults ≡ some v
    → ping_all env v c ≡ ok (v', c')
    → Ensures (Harvested env.predecessor_account_id r v'.farmed c) (withdraw_crop env c)
unfolding withdraw_crop put_vault get_vault
withdraw_crop-Harvested env v c r {v'} {c'} h now started found pinged =
    let a = env.predecessor_account_id in
    Ensures-intro (Harvested a r v'.farmed c) _ λ d done.
      let sent : send_crop a v'.farmed
            (record c' { vaults = insert a (record v' { farmed = 0 }) c'.vaults })
          ≡ ok d =
        ground (arith, found, pinged) in
      let same = send_crop-SameUnits _ _ _ sent in
      let left = get-insert a a (record v' { farmed = 0 }) c'.vaults in
      (
        ground (
          arith,
          same,
          send_crop-keeps_acc _ _ _ sent,
          ping_all_inv env v c pinged,
          put_pinged-owed env a v c r (record v' { farmed = 0 }) v'.farmed h.counted found pinged
              now started refl (omega arith),
        ),
        (record v' { farmed = 0 }, ground (arith, left, same), refl),
        ground (
          arith,
          ping_all-keeps_tokens env v c pinged,
          Ensures-at
              (Pays (
                if v'.farmed == 0
                then []
                else crop a v'.farmed 0 c'.farm_tokens c'.farm_token_rates))
              _
              (send_crop-Pays a v'.farmed
                (record c' { vaults = insert a (record v' { farmed = 0 }) c'.vaults }))
              sent,
        ),
      )
