-- ===== src/P3Farm/Units/Zeros.antt =====
-- The stake units of a vault without tokens.
use cheddar.Prelude.{
  ℕ, ◌≤◌, ◌<◌, ◌≡◌, refl, sym, subst, true, List, [], ◌∷◌, length, replicate, ok, arith,
  Result-cases, inl, inr,
}
use cheddar.Prelude.Words.{mul_u256, as_u128, checked_div, fit}
use cheddar.Near.{Balance}
use cheddar.P3Lib.{safe_mul, check_all_zeros}
use cheddar.P3Farm.State.{Contract, fresh_vault, is_empty}
use cheddar.P3Farm.Rewards.{new_vault, min_stake, min_stake_from}
use cheddar.P3Farm.Units.{IsRated}

pub safe_mul_zero : (rate : ℕ) → safe_mul 0 rate ≡ ok 0
unfolding safe_mul mul_u256 as_u128 checked_div fit
safe_mul_zero rate = ground arith

pub min_stake_from-le :
    (rates : List ℕ) (least : Balance) (staked : List Balance) {s : Balance}
    → min_stake_from least staked rates ≡ ok s
    → s ≤ least
unfolding min_stake_from
min_stake_from-le [] least staked {s} e = ground arith
min_stake_from-le (rate ∷ rates) least [] {s} e = ground arith
min_stake_from-le (rate ∷ rates) least (x ∷ xs) {s} e = elim (Result-cases (safe_mul x rate)) [
  | inl (y, scaled) ↦ grind (arith, min_stake_from-le rates)
  | inr (m, refused) ↦ absurd (ground arith)
]

pub min_stake-zeros :
    (staked : List Balance) (rates : List ℕ) {s : Balance}
    → check_all_zeros staked ≡ true
    → 0 < length rates
    → min_stake staked rates ≡ ok s
    → s ≡ 0
unfolding min_stake min_stake_from check_all_zeros
min_stake-zeros staked [] {s} zeros some e = absurd (ground arith)
min_stake-zeros [] (rate ∷ rates) {s} zeros some e = absurd (ground arith)
min_stake-zeros (x ∷ xs) (rate ∷ rates) {s} zeros some e =
    grind (arith, safe_mul_zero, min_stake_from-le)

pub min_stake_from-replicate :
    (rates : List ℕ) → min_stake_from 0 (replicate (length rates) 0) rates ≡ ok 0
unfolding min_stake_from
min_stake_from-replicate [] = refl
min_stake_from-replicate (rate ∷ rates) =
    ground (arith, safe_mul_zero rate, min_stake_from-replicate rates)

-- A vault that was just made counts for nothing, which is right.
pub fresh_vault-IsRated :
    (rates : List ℕ) (boost farmed_len acc : ℕ)
    → 0 < length rates
    → IsRated rates boost (fresh_vault (length rates) farmed_len acc)
unfolding fresh_vault is_empty min_stake min_stake_from
fresh_vault-IsRated [] boost farmed_len acc h = absurd (omega (arith, h))
fresh_vault-IsRated (rate ∷ rates) boost farmed_len acc h =
    ground (arith, safe_mul_zero rate, min_stake_from-replicate rates)

pub new_vault-IsRated :
    (c : Contract)
    → length c.stake_tokens ≡ length c.stake_rates
    → 0 < length c.stake_rates
    → IsRated c.stake_rates c.cheddar_nft_boost (new_vault c)
unfolding new_vault
new_vault-IsRated c same rate =
    subst
      (λ n.
        IsRated c.stake_rates c.cheddar_nft_boost
          (fresh_vault n (length c.farm_tokens) c.reward_acc))
      (sym same)
      (fresh_vault-IsRated c.stake_rates c.cheddar_nft_boost (length c.farm_tokens) c.reward_acc
        rate)
