-- ===== src/P4Farm/Accounts/Fresh.antt =====
-- Vaults without NFTs, and those that were just made (p4-farm-nft/src/vault.rs, lib.rs).
use cheddar.Prelude.{
  ℕ, ◌≤◌, ◌<◌, ◌≡◌, refl, sym, subst, true, List, [], ◌∷◌, length, replicate, ok, none, arith,
  Result-cases, inl, inr, Option-cases,
}
use cheddar.Prelude.Words.{mul_u128, fit}
use cheddar.Near.{AccountId, Balance}
use cheddar.Near.LookupMap.{get}
use cheddar.P3Lib.{safe_mul, e24}
use cheddar.P3Farm.Units.Zeros.{safe_mul_zero}
use cheddar.P4Farm.State.{TokenId, ParseAccount, Vault, Contract, fresh_vault}
use cheddar.P4Farm.Identifiers.{min_stake, min_stake_from, check_all_empty, is_empty}
use cheddar.P4Farm.Rewards.{new_vault, recovered_vault, is_empty_vault}
use cheddar.P4Farm.Counts.{nfts_at-replicate}
use cheddar.P4Farm.Accounts.{IsRated, rated_units, IsAccounted, OwesFor, found-OwesFor}

min_stake_from-le :
    (rates : List ℕ) (least : Balance) (staked : List (List TokenId)) {s : Balance}
    → min_stake_from least staked rates ≡ ok s
    → s ≤ least
unfolding min_stake_from
min_stake_from-le [] least staked {s} e = ground arith
min_stake_from-le (rate ∷ rates) least [] {s} e = ground arith
min_stake_from-le (rate ∷ rates) least (x ∷ xs) {s} e =
    elim (Result-cases (mul_u128 (length x) e24)) [
      | inl (y, counted) ↦ elim (Result-cases (safe_mul y rate)) [
        | inl (z, scaled) ↦ grind (arith, min_stake_from-le rates)
        | inr (m, refused) ↦ absurd (ground arith)
      ]
      | inr (m, refused) ↦ absurd (ground arith)
    ]

pub min_stake-empty :
    (staked : List (List TokenId)) (rates : List ℕ) {s : Balance}
    → check_all_empty staked ≡ true
    → 0 < length rates
    → min_stake staked rates ≡ ok s
    → s ≡ 0
unfolding min_stake min_stake_from check_all_empty mul_u128 fit
min_stake-empty staked [] {s} empty rated e = absurd (ground arith)
min_stake-empty [] (rate ∷ rates) {s} empty rated e = absurd (ground arith)
min_stake-empty ([] ∷ xs) (rate ∷ rates) {s} empty rated e =
    grind (arith, safe_mul_zero, min_stake_from-le)
min_stake-empty ((t ∷ ts) ∷ xs) (rate ∷ rates) {s} empty rated e = absurd (ground arith)

min_stake_from-replicate :
    (rates : List ℕ) → min_stake_from 0 (replicate (length rates) []) rates ≡ ok 0
unfolding min_stake_from mul_u128 fit
min_stake_from-replicate [] = refl
min_stake_from-replicate (rate ∷ rates) =
    ground (arith, safe_mul_zero rate, min_stake_from-replicate rates)

module _ (parse : ParseAccount) where
  fresh_vault-units :
      (rates : List ℕ) (cheddy : AccountId) (nft_boost cheddy_boost farmed_len acc : ℕ)
      → 0 < length rates
      → rated_units parse rates cheddy nft_boost cheddy_boost
          (fresh_vault (length rates) farmed_len acc)
        ≡ ok 0
  unfolding fresh_vault is_empty min_stake min_stake_from mul_u128 fit
  fresh_vault-units [] cheddy nb cb farmed_len acc h = absurd (omega (arith, h))
  fresh_vault-units (rate ∷ rates) cheddy nb cb farmed_len acc h =
      ground (arith, safe_mul_zero rate, min_stake_from-replicate rates)

  pub new_vault-IsRated :
      (c : Contract)
      → length c.stake_nft_tokens ≡ length c.stake_rates
      → 0 < length c.stake_rates
      → IsRated parse c (new_vault c)
  unfolding new_vault fresh_vault
  new_vault-IsRated c same rate =
      subst
        (λ n.
          rated_units parse c.stake_rates c.cheddy c.nft_boost c.cheddy_boost
            (fresh_vault n (length c.farm_tokens) c.reward_acc)
          ≡ ok 0)
        (sym same)
        (fresh_vault-units c.stake_rates c.cheddy c.nft_boost c.cheddy_boost (length c.farm_tokens)
          c.reward_acc rate)

  -- A vault that holds nothing has no units.
  pub empty_vault-units :
      (v : Vault) (c : Contract)
      → is_empty_vault v ≡ true
      → IsRated parse c v
      → 0 < length c.stake_rates
      → v.min_stake ≡ 0
  unfolding is_empty_vault
  empty_vault-units v c empty h rate = elim (Result-cases (min_stake v.staked c.stake_rates)) [
    | inl (s, known) ↦ ground (arith, h, min_stake-empty v.staked c.stake_rates {s = s})
    | inr (m, refused) ↦ absurd (ground (arith, h))
  ]

module _ (parse : ParseAccount) (i : ℕ) where
  pub fresh-OwesFor :
      (a : AccountId) (c : Contract)
      → IsAccounted parse i c
      → get a c.vaults ≡ none
      → OwesFor parse i a (new_vault c) c
  unfolding new_vault fresh_vault
  fresh-OwesFor a c h missing = ground (
    arith,
    h.units,
    h.nfts,
    h.cheddar,
    h.rated,
    h.in_range,
    h.one_rate_each,
    h.has_rate,
    nfts_at-replicate i (length c.stake_nft_tokens),
  )

  -- The vault of a callback is the one that was there, or a new one.
  pub recovered-OwesFor :
      (a : AccountId) (c : Contract) {v : Vault} {c' : Contract}
      → recovered_vault a c ≡ ok (v, c')
      → IsAccounted parse i c
      → OwesFor parse i a v c'
  unfolding recovered_vault
  recovered-OwesFor a c {v} {c'} e h = elim (Option-cases (get a c.vaults)) [
    | inl missing ↦ ground (arith, fresh-OwesFor a c h missing)
    | inr (w, found) ↦ ground (arith, found-OwesFor parse i a w c h found)
  ]
