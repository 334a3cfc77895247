-- ===== src/P4Farm/Reports.antt =====
-- What status reports of a vault (p4-farm-nft/src/lib.rs) against what a harvest sends.
use cheddar.Prelude.{
  ℕ, zero, suc, ◌+◌, ◌≡◌, Ensures-if, List, [], ◌∷◌, ◌++◌, some, ok, arith, Ensures, Ensures-bind,
  Ensures-at, Ensures-intro, Result-cases, inl, inr, length, ◌==◌, if◌then◌else◌,
}
use cheddar.Near.{Env, AccountId, Balance}
use cheddar.P3Lib.{index, safe_mul}
use cheddar.P3Farm.Emission.Crops.{suffix, index-suffix}
use cheddar.P4Farm.State.{Vault, Contract, Promise, transfer, ft_transfer, nft_transfer}
use cheddar.P4Farm.Rewards.{
  ping, update_reward_acc, compute_reward_acc, current_round, ping_all, get_vault, put_vault,
}
use cheddar.P4Farm.Transfers.{transfer_farmed_tokens, withdraw_crop_from, send_crop}
use cheddar.P4Farm.Staking.{withdraw_crop, assert_is_active}
use cheddar.P4Farm.Methods.{Status, status, vault_status, farmed_tokens_of}
use cheddar.P4Farm.Accounts.Closing.{get_vault_inv}
use cheddar.P4Farm.Emission.{ping_all-parts}

-- The amounts that promises send, in their order.
unfoldable pub amounts : List Promise → List Balance
amounts [] = []
amounts (transfer _ x ∷ ps) = x ∷ amounts ps
amounts (ft_transfer _ _ x _ ∷ ps) = x ∷ amounts ps
amounts (nft_transfer _ _ _ _ ∷ ps) = amounts ps

transfer_farmed_tokens-amounts :
    (a : AccountId) (i : ℕ) (x : Balance) (c : Contract) (qs : List Promise) {d : Contract}
    {ps : List Promise}
    → transfer_farmed_tokens a i x c ≡ ok (d, ps)
    → (amounts (ps ++ qs) ≡ x ∷ amounts qs) × (d.farm_token_rates ≡ c.farm_token_rates)
unfolding transfer_farmed_tokens amounts
transfer_farmed_tokens-amounts a i x c qs {d} {ps} e = ground arith

no_rates :
    (x : Balance) (rates : List ℕ) (ys : List Balance)
    → 0 ≡ length rates
    → farmed_tokens_of x rates ≡ ok ys
    → [] ≡ ys
unfolding farmed_tokens_of
no_rates x [] ys many e = ground arith
no_rates x (r ∷ rs) ys many e = absurd (ground arith)

-- A list of amounts that is what the call sends.
abbrev Sends : List Balance → Contract × List Promise → Type 0
Sends ys t = amounts t.1 ≡ ys

withdraw_crop_from-Sends :
    (n i : ℕ) (a : AccountId) (x : Balance) (c : Contract) (ys : List Balance)
    → n ≡ length (suffix i c.farm_token_rates)
    → farmed_tokens_of x (suffix i c.farm_token_rates) ≡ ok ys
    → Ensures (Sends ys) (withdraw_crop_from n i a x c)
unfolding withdraw_crop_from farmed_tokens_of amounts
withdraw_crop_from-Sends zero i a x c ys many reported =
    no_rates x (suffix i c.farm_token_rates) ys many reported
withdraw_crop_from-Sends (suc n) i a x c ys many reported =
    Ensures-bind (Sends ys) (index c.farm_token_rates i) _ λ rate read.
      let here = index-suffix i c.farm_token_rates read in
      Ensures-bind (Sends ys) (safe_mul x rate) _ λ amount worth.
        Ensures-bind (Sends ys) (transfer_farmed_tokens a i amount c) _ λ (c1, ps) sent.
          Ensures-bind (Sends ys) (withdraw_crop_from n (i + 1) a x c1) _ λ (c2, qs) rest.
            let one = transfer_farmed_tokens-amounts a i amount c qs sent in
            elim (Result-cases (farmed_tokens_of x (suffix (i + 1) c.farm_token_rates))) [
              | inl (zs, left) ↦
                  (let others =
                      Ensures-at (Sends zs) _
                        (withdraw_crop_from-Sends n (i + 1) a x c1 zs
                          (ground (arith, many, here, one)) (ground (arith, left, one)))
                        rest in
                    ground (arith, here, worth, one, others, reported, left))
              | inr (m, none_left) ↦ absurd (ground (arith, here, worth, reported, none_left))
            ]

reported_inv :
    (env : Env) (v : Vault) (c : Contract) (s : Status) (r : ℕ) {acc : ℕ} {v1 : Vault}
    → vault_status env v c ≡ ok s
    → current_round env c ≡ ok r
    → compute_reward_acc r c ≡ ok acc
    → ping v acc r ≡ ok v1
    → (s.farmed_units ≡ v1.farmed)
      × (farmed_tokens_of v1.farmed c.farm_token_rates ≡ ok s.farmed_tokens)
unfolding vault_status
reported_inv env v c s r {acc} {v1} e now computed pinged = ground (arith, now, computed, pinged)

pub ping_all-keeps_tokens :
    (env : Env) (v : Vault) (c : Contract) {v' : Vault} {c' : Contract}
    → ping_all env v c ≡ ok (v', c')
    → (c'.farm_tokens ≡ c.farm_tokens) × (c'.farm_token_rates ≡ c.farm_token_rates)
unfolding ping_all update_reward_acc
ping_all-keeps_tokens env v c {v'} {c'} e = grind arith

-- The status of a registered caller, on a farm with one rate for each farm token, unless the harvest
-- panics: where it reports farmed units, the harvest in the same second sends exactly the amounts that
-- it reports, in their order; where it reports none, nothing is sent.
pub withdraw_crop-amounts :
    (env : Env) (c : Contract) (s : Status)
    → length c.farm_tokens ≡ length c.farm_token_rates
    → status env env.predecessor_account_id c ≡ ok (some s)
    → Ensures
        (λ (t : Contract × List Promise).
          amounts t.1 ≡ (if s.farmed_units == 0 then [] else s.farmed_tokens))
        (withdraw_crop env c)
unfolding status withdraw_crop send_crop amounts put_vault suffix
withdraw_crop-amounts env c s one_rate_each reported =
    let a = env.predecessor_account_id in
    let P = λ (t : Contract × List Promise).
      amounts t.1 ≡ (if s.farmed_units == 0 then [] else s.farmed_tokens) in
    Ensures-bind P (assert_is_active c) _ λ _ _. Ensures-bind P (get_vault c a) _ λ v read.
      Ensures-bind P (ping_all env v c) _ λ (v1, c1) pinged.
        elim (Result-cases (current_round env c)) [
          | inl (r, now) ↦
              (let (computed, ping) = ping_all-parts env v c r pinged now in
                let known =
                  reported_inv env v c s r
                    (let told : vault_status env v c ≡ ok s =
                        ground (arith, get_vault_inv a c read, reported) in
                      told)
                    now computed ping in
                let kept = ping_all-keeps_tokens env v c pinged in
                let stored = put_vault a (record v1 { farmed = 0 }) c1 in
                Ensures-if P (v1.farmed == 0) _ _
                  (λ none_farmed. ground (arith, none_farmed, known))
                  (λ farmed. Ensures-intro P _ λ t e. ground (
                    arith,
                    farmed,
                    known,
                    Ensures-at (Sends s.farmed_tokens) _
                        (withdraw_crop_from-Sends (length c1.farm_tokens) 0 a v1.farmed stored
                          s.farmed_tokens (ground (arith, kept, one_rate_each))
                          (ground (arith, kept, known)))
                        e,
                  )))
          | inr (m, none_now) ↦ absurd (ground (arith, read, reported, none_now))
        ]
