-- ===== src/P3Farm/Units/Calls.antt =====
-- The stake units across staking, unstaking, closing and the callbacks.
use cheddar.Prelude.{
  ℕ, ◌+◌, ◌<◌, length, ◌≡◌, String, none, some, ok, arith, Option-cases, inl, inr, ltb, Ensures,
  Ensures-bind, Ensures-if, ap, assert,
}
use cheddar.Near.{Env, AccountId, Balance}
use cheddar.Near.LookupMap.{get, sum_by, weight, sum_by-insert, All, All-get, All-insert}
use cheddar.P3Lib.{find_acc_idx, add_at}
use cheddar.P3Farm.State.{Vault, Contract, fresh_vault}
use cheddar.P3Farm.Rewards.{
  get_vault, ping_all, recompute_stake, put_vault, new_vault, recovered_vault,
}
use cheddar.P3Farm.Transfers.{recover_staked, withdraw_nft_callback, has_failed}
use cheddar.P3Farm.Staking.{stake}
use cheddar.P3Farm.Units.Zeros.{new_vault-IsRated}
use cheddar.P3Farm.Units.{
  units_of, units, IsRated, IsCounted, ping_all_inv, recompute_stake_inv, recompute_stake-IsRated,
}

-- A vault read from a counted farm, or changed where its units do not count yet.
abbrev pub IsCountedWith : AccountId → Vault → Contract → Type 0
IsCountedWith a v c =
    (units c + v.min_stake ≡ c.staked_units + weight units_of (get a c.vaults))
    × All (IsRated c.stake_rates c.cheddar_nft_boost) c.vaults
    × (length c.stake_tokens ≡ length c.stake_rates)
    × (0 < length c.stake_rates)

pub get_vault_inv :
    (a : AccountId) (c : Contract) {v : Vault} → get_vault c a ≡ ok v → get a c.vaults ≡ some v
unfolding get_vault
get_vault_inv a c {v} e = ground arith

-- A vault that goes back with new units leaves the farm counted.
pub put_recomputed-IsCounted :
    (a : AccountId) (v : Vault) (c : Contract) {v' : Vault} {c' : Contract}
    → recompute_stake v c ≡ ok (v', c')
    → IsCountedWith a v c
    → IsCounted (put_vault a v' c')
unfolding put_vault
put_recomputed-IsCounted a v c {v'} {c'} e h = ground (
  arith,
  recompute_stake_inv v c e,
  sum_by-insert units_of a v' c.vaults,
  All-insert (IsRated c.stake_rates c.cheddar_nft_boost) a v' c.vaults h.1
      (recompute_stake-IsRated v c e),
  ap (sum_by units_of) (recompute_stake_inv v c e).2,
)

-- Any vault that is read, pinged and changed in its tokens or its Cheddy.
pub pinged-IsCountedWith :
    (env : Env) (a : AccountId) (v : Vault) (c : Contract) {v' : Vault} {c' : Contract}
    → IsCounted c
    → get a c.vaults ≡ some v
    → ping_all env v c ≡ ok (v', c')
    → IsCountedWith a v' c'
pinged-IsCountedWith env a v c {v'} {c'} h found e =
    ground (arith, h.counted, h.rated, h.one_rate_each, h.has_rate, ping_all_inv env v c e)

pub pinged-IsRated :
    (env : Env) (a : AccountId) (v : Vault) (c : Contract) {v' : Vault} {c' : Contract}
    → IsCounted c
    → get a c.vaults ≡ some v
    → ping_all env v c ≡ ok (v', c')
    → IsRated c'.stake_rates c'.cheddar_nft_boost v'
pinged-IsRated env a v c {v'} {c'} h found e = ground (
  arith,
  ping_all_inv env v c e,
  All-get (IsRated c.stake_rates c.cheddar_nft_boost) a c.vaults h.rated found,
)

-- A vault that goes back with the units that it had.
pub unchanged_put-IsCounted :
    (a : AccountId) (v : Vault) (c : Contract)
    → IsCountedWith a v c
    → IsRated c.stake_rates c.cheddar_nft_boost v
    → IsCounted (put_vault a v c)
unfolding put_vault
unchanged_put-IsCounted a v c h rated = ground (
  arith,
  h,
  sum_by-insert units_of a v c.vaults,
  All-insert (IsRated c.stake_rates c.cheddar_nft_boost) a v c.vaults h.1 rated,
)

abbrev pub FirstCounted {ℓ} : {B : Type ℓ} → Contract × B → Type 0
FirstCounted r = IsCounted r.0

pub stake-IsCounted :
    (env : Env) (a token : AccountId) (x : Balance) (c : Contract)
    → IsCounted c
    → Ensures FirstCounted (stake env a token x c)
unfolding stake
stake-IsCounted env a token x c h =
    Ensures-bind FirstCounted (assert (ltb 0 x) "staked amount must be positive") _ λ _ _.
      Ensures-bind FirstCounted (find_acc_idx token c.stake_tokens) _ λ i _.
        Ensures-bind FirstCounted (get_vault c a) _ λ v found.
          Ensures-bind FirstCounted (ping_all env v c) _ λ (v1, c1) pinged.
            Ensures-bind FirstCounted (add_at v1.staked i x) _ λ staked _.
              Ensures-bind FirstCounted (add_at c1.total_stake i x) _ λ total _.
                Ensures-bind FirstCounted
                  (recompute_stake (record v1 { staked = staked })
                    (record c1 { total_stake = total }))
                  _
                  λ (v2, c2) counted.
                    put_recomputed-IsCounted a _ _ counted
                      (pinged-IsCountedWith env a v c h (get_vault_inv a c found) pinged)

pub fresh-IsCountedWith :
    (a : AccountId) (c : Contract)
    → IsCounted c
    → get a c.vaults ≡ none
    → IsCountedWith a (new_vault c) c
unfolding new_vault fresh_vault
fresh-IsCountedWith a c h missing = ground (arith, h.counted, h.rated, h.one_rate_each, h.has_rate)

pub found-IsCountedWith :
    (a : AccountId) (v : Vault) (c : Contract)
    → IsCounted c
    → get a c.vaults ≡ some v
    → IsCountedWith a v c
found-IsCountedWith a v c h found = ground (arith, h.counted, h.rated, h.one_rate_each, h.has_rate)

-- The vault of a callback counts, whether it was there or is new, and one that is new has no units.
pub recovered-IsCountedWith :
    (a : AccountId) (c : Contract) {v : Vault} {c' : Contract}
    → IsCounted c
    → recovered_vault a c ≡ ok (v, c')
    → IsCountedWith a v c'
unfolding recovered_vault
recovered-IsCountedWith a c {v} {c'} h e = elim (Option-cases (get a c.vaults)) [
  | inl missing ↦ ground (arith, fresh-IsCountedWith a c h missing)
  | inr (w, found) ↦ ground (arith, found-IsCountedWith a w c h found)
]

pub recovered-IsRated :
    (a : AccountId) (c : Contract) {v : Vault} {c' : Contract}
    → IsCounted c
    → recovered_vault a c ≡ ok (v, c')
    → IsRated c'.stake_rates c'.cheddar_nft_boost v
unfolding recovered_vault
recovered-IsRated a c {v} {c'} h e = elim (Option-cases (get a c.vaults)) [
  | inl missing ↦ ground (arith, new_vault-IsRated c h.one_rate_each h.has_rate)
  | inr (w, found) ↦
      ground (arith, All-get (IsRated c.stake_rates c.cheddar_nft_boost) a c.vaults h.rated found)
]

pub recover_staked-IsCounted :
    (a : AccountId) (i : ℕ) (x : Balance) (c : Contract)
    → IsCounted c
    → Ensures IsCounted (recover_staked a i x c)
unfolding recover_staked
recover_staked-IsCounted a i x c h =
    Ensures-bind IsCounted (recovered_vault a c) _ λ (v, c1) recovered.
      Ensures-bind IsCounted (add_at v.staked i x) _ λ staked _.
        Ensures-bind IsCounted (recompute_stake (record v { staked = staked }) c1) _ λ _ counted.
          put_recomputed-IsCounted a _ c1 counted (recovered-IsCountedWith a c h recovered)

pub withdraw_nft_callback-IsCounted :
    (env : Env) (a : AccountId) (cheddy : String) (c : Contract)
    → IsCounted c
    → Ensures IsCounted (withdraw_nft_callback env a cheddy c)
unfolding withdraw_nft_callback
withdraw_nft_callback-IsCounted env a cheddy c h =
    Ensures-bind IsCounted (has_failed env) _ λ fails _.
      Ensures-if IsCounted fails _ _
        (λ _. Ensures-bind IsCounted (recovered_vault a c) _ λ (v, c1) recovered.
          Ensures-bind IsCounted (recompute_stake (record v { cheddy = cheddy }) c1) _ λ _ counted.
            put_recomputed-IsCounted a _ c1 counted (recovered-IsCountedWith a c h recovered))
        (λ _. h)
