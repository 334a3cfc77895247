-- ===== src/P4Farm/Emission/Closing.antt =====
-- What a closing of the P4 farm (p4-farm-nft/src/lib.rs) pays, and what the other vaults are owed after it.
use mathlib.Core.Path.{ap₂}
use cheddar.Prelude.{
  ℕ, ◌+◌, ◌-◌, ◌*◌, ◌≤◌, ◌≡◌, ap, subst, ◌∙◌, List, some, ok, arith, inl, inr, Ensures,
  Ensures-bind, Ensures-at, Ensures-if, assert, length, not,
}
use cheddar.Prelude.Words.{checked_sub}
use cheddar.Near.{Env, AccountId}
use cheddar.Near.LookupMap.{get, remove, sum_by, sum_by-remove}
use cheddar.P3Lib.{acc_overflow, find_acc_idx, sub_at}
use cheddar.P3Farm.Emission.{product_mono}
use cheddar.P4Farm.State.{ParseAccount, Vault, Contract, Promise}
use cheddar.P4Farm.Identifiers.{is_empty, min_stake, extract_contract_token_ids}
use cheddar.P4Farm.Rewards.{current_round, ping_all, put_vault, recompute_stake}
use cheddar.P4Farm.Transfers.{send_crop, transfer_staked_cheddar}
use cheddar.P4Farm.Staking.{
  return_staked_from, return_boost, send_boost_nft, return_cheddar, pay_out,
}
use cheddar.P4Farm.Accounts.{units_of, IsRated}
use cheddar.P4Farm.Accounts.Changes.{ping_all_inv, recompute_stake_inv}
use cheddar.P4Farm.Accounts.Exits.{min_stake-le-units}
use cheddar.P4Farm.Emission.{
  IsStarted, owed, owed_all, owed_all-later, emitted, compute_reward_acc-le, ping_all-parts,
  ping-owed, IsStarted-later,
}
use cheddar.P4Farm.Emission.Earnings.{recompute_stake-keeps_rewards}
use cheddar.P4Farm.Emission.Others.{
  FirstRewards, return_staked_from-SameRewards, send_crop-SameRewards, others-insert, pinged_round,
  compute_reward_acc_same, others-owed, ping_all-keeps_rounds,
}

-- What the vaults but that of the account are owed.
abbrev pub others : AccountId → Contract → ℕ
others a d = sum_by (owed d.reward_acc) (remove a d.vaults)

-- The farm after the ping of a closing, once the units of the vault are taken off.
abbrev pub Reduced : AccountId → Vault → Contract → Contract → Contract → Type 0
Reduced a v c c1 e =
    (e.vaults ≡ c.vaults)
    × (e.reward_acc ≡ c1.reward_acc)
    × (e.reward_acc_round ≡ c1.reward_acc_round)
    × (e.farm_unit_emission ≡ c.farm_unit_emission)
    × (c.staked_units ≤ e.staked_units + v.min_stake)

module _ (env : Env) (a : AccountId) (v : Vault) (c : Contract) (r : ℕ) {v1 : Vault} {c1 : Contract}
    (counted : sum_by units_of c.vaults ≡ c.staked_units) (found : get a c.vaults ≡ some v)
    (pinged : ping_all env v c ≡ ok (v1, c1)) (now : current_round env c ≡ ok r)
    (started : IsStarted r c.reward_acc) where
  abbrev pub Paid : Contract → Type 0
  Paid d = others a d + v1.farmed * acc_overflow ≤ owed_all c + emitted r c

  -- A second ping in the same round, for fewer units.
  again-Paid :
      (e : Contract) {v2 : Vault} {e2 : Contract}
      → Reduced a v c c1 e
      → current_round env e ≡ ok r
      → ping_all env v1 e ≡ ok (v2, e2)
      → (e2.vaults ≡ e.vaults) × Paid e2
  unfolding owed
  again-Paid e {v2} {e2} h same again =
      let (computed, _) = ping_all-parts env v1 e r again same in
      let (grows, share) = compute_reward_acc-le r e computed in
      let kept = ping_all_inv env v1 e again in
      let (first, ping) = ping_all-parts env v c r pinged now in
      (
        ground (arith, kept),
        elim (pinged_round env v c r pinged now) [
          | inl caught_up ↦ ground (
            arith,
            h,
            kept,
            compute_reward_acc_same r e computed (ground (arith, h, caught_up)),
            others-owed env a v c r counted found pinged now started,
          )
          | inr waiting ↦
              (let at_acc =
                  subst
                    (λ x.
                      e.staked_units * (e2.reward_acc - x)
                      ≤ (r - e.reward_acc_round) * e.farm_unit_emission * acc_overflow)
                    (h.1 ∙ waiting.0) share in
                let at_round =
                  subst
                    (λ x.
                      e.staked_units * (e2.reward_acc - c.reward_acc)
                      ≤ (r - x) * e.farm_unit_emission * acc_overflow)
                    (h.2 ∙ waiting.1) at_acc in
                let at_rate =
                  subst
                    (λ x.
                      e.staked_units * (e2.reward_acc - c.reward_acc)
                      ≤ (r - c.reward_acc_round) * x * acc_overflow)
                    h.3 at_round in
                let same_rest =
                  ap (λ m. sum_by (owed e2.reward_acc) (remove a m)) (kept.5.1.0 ∙ h.0) in
                ground (
                  arith,
                  same_rest,
                  counted,
                  found,
                  at_rate,
                  product_mono (e2.reward_acc - c.reward_acc) (sum_by units_of (remove a c.vaults))
                      e.staked_units
                      (ground (arith, h, counted, found, sum_by-remove units_of a c.vaults)),
                  owed_all-later c.reward_acc e2.reward_acc (remove a c.vaults)
                      (ground (arith, h, grows, waiting)),
                  sum_by-remove (owed c.reward_acc) a c.vaults,
                  ap (λ x. owed x v) waiting.0,
                  ap (λ x. owed x v1) waiting.0,
                  ping-owed v c1.reward_acc r ping (IsStarted-later r c first started),
                ))
        ],
      )

  same-Paid : (d e : Contract) → e.vaults ≡ d.vaults → e.reward_acc ≡ d.reward_acc → Paid d → Paid e
  same-Paid d e vaults acc h =
      let same : others a e ≡ others a d = ap₂ (λ x m. sum_by (owed x) (remove a m)) acc vaults in
      ground (arith, same, h)

  -- Nothing of the vault's rewards is left to the rest of a closing.
  pub Reduced-Paid : (e : Contract) → Reduced a v c c1 e → Paid e
  Reduced-Paid e h =
      let same : others a e ≡ sum_by (owed c1.reward_acc) (remove a c.vaults) =
        ap₂ (λ x m. sum_by (owed x) (remove a m)) h.1 h.0 in
      ground (arith, same, others-owed env a v c r counted found pinged now started)

  return_boost-Paid :
      (parse : ParseAccount) (e : Contract)
      → Reduced a v c c1 e
      → current_round env e ≡ ok r
      → Ensures (λ (t : Vault × Contract × List Promise). Paid t.1) (return_boost parse env a v1 e)
  unfolding return_boost send_boost_nft put_vault
  return_boost-Paid parse e h same =
      let P = λ (t : Vault × Contract × List Promise). Paid t.1 in
      Ensures-if P (is_empty v1.boost_nft) _ _ (λ _. Reduced-Paid e h)
        λ _.
          Ensures-bind P (assert (not (is_empty v1.boost_nft)) "Sender has no NFT deposit") _ λ _ _.
            Ensures-bind P (ping_all env v1 e) _ λ (v2, e2) again.
              Ensures-bind P (extract_contract_token_ids parse v2.boost_nft) _ λ (boost, token) _.
                Ensures-bind P (find_acc_idx boost e2.boost_nft_contracts) _ λ i _.
                  Ensures-bind P (sub_at e2.total_boost i 1) _ λ total _.
                    Ensures-bind P
                      (recompute_stake parse (record v2 { boost_nft = "" })
                        (record e2 { total_boost = total }))
                      _
                      λ (v3, e3) recounted.
                        let paid = (again-Paid e h same again).1 in
                        let rewards = recompute_stake-keeps_rewards parse _ _ recounted in
                        let moved = recompute_stake_inv parse _ _ recounted in
                        let kept = same-Paid e2 e3 moved.4 rewards.2 paid in
                        ground (arith, kept, others-insert (owed e3.reward_acc) a v3 e3.vaults)

  pub pay_out-Paid :
      (parse : ParseAccount)
      → IsRated parse c v
      → Ensures (λ (t : Contract × List Promise). Paid t.0) (pay_out parse env a v1 c1)
  unfolding pay_out return_cheddar transfer_staked_cheddar checked_sub current_round
  pay_out-Paid parse rated =
      let P = λ (t : Contract × List Promise). Paid t.0 in
      let ping = ping_all_inv env v c pinged in
      let rounds = ping_all-keeps_rounds env v c pinged in
      Ensures-bind P (min_stake v1.staked c1.stake_rates) _ λ units least.
        Ensures-bind P (checked_sub c1.staked_units units) _ λ staked_units taken.
          let start = record c1 { staked_units = staked_units } in
          Ensures-bind P (return_staked_from (length c1.total_stake) 0 a v1.staked start) _
            λ (ca, ps) sent. Ensures-bind P (send_crop a v1.farmed ca) _ λ (cb, qs) cropped.
              let first =
                Ensures-at (FirstRewards start) _
                  (return_staked_from-SameRewards (length c1.total_stake) 0 a v1.staked start)
                  sent in
              let second =
                Ensures-at (FirstRewards ca) _ (send_crop-SameRewards a v1.farmed ca) cropped in
              let le =
                (min_stake-le-units parse v1 c1 {s = units} least
                  (ground (arith, ping, rated))).0 in
              let reduced : Reduced a v c c1 cb = ground (arith, first, second, ping, rounds, le) in
              let same : current_round env cb ≡ ok r = ground (arith, now, first, second, rounds) in
              Ensures-bind P (return_boost parse env a v1 cb) _ λ (w, cc, rs) boosted.
                let paid =
                  Ensures-at (λ (t : Vault × Contract × List Promise). Paid t.1) _
                    (return_boost-Paid parse cb reduced same) boosted in
                Ensures-bind P (return_cheddar a w cc) _ λ (cd, ss) final.
                  same-Paid cc cd (ground (arith, final)) (ground (arith, final)) paid
