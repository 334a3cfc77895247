-- ===== src/P3Farm/Units/Exits.antt =====
-- The stake units across the closing of an account.
use cheddar.Prelude.{
  ℕ, zero, suc, ◌+◌, ◌<◌, length, ◌≡◌, true, List, ok, arith, Ensures, Ensures-bind, Ensures-at,
  Ensures-if, ap, assert, not,
}
use cheddar.Prelude.Words.{checked_sub, checked_sub_inv}
use cheddar.Near.{Env, AccountId, Balance}
use cheddar.Near.LookupMap.{sum_by, sum_by-remove, All, All-get, All-remove}
use cheddar.P3Farm.State.{Vault, Contract, Promise, is_empty}
use cheddar.P3Farm.Rewards.{get_vault, ping_all, recompute_stake, min_stake, is_empty_vault}
use cheddar.P3Farm.Transfers.{
  transfer_staked_tokens, transfer_farmed_tokens, withdraw_crop_from, send_crop,
}
use cheddar.P3Farm.Staking.{
  send_nft, return_staked_from, return_nft, pay_out, close, assert_is_active, assert_one_yocto,
}
use cheddar.P3Farm.Units.{
  units_of, units, IsRated, IsCounted, SameSettings, SameUnits, ping_all_inv, recompute_stake_inv,
  recompute_stake-IsRated,
}
use cheddar.P3Farm.Units.Zeros.{min_stake-zeros}
use cheddar.P3Farm.Units.Calls.{FirstCounted, get_vault_inv, pinged-IsCountedWith}

abbrev pub FirstSame {ℓ} : {B : Type ℓ} → Contract → Contract × B → Type 0
FirstSame c r = SameUnits c r.0

pub transfer_staked_tokens-SameUnits :
    (a : AccountId) (i : ℕ) (x : Balance) (c : Contract) {r : Contract × List Promise}
    → transfer_staked_tokens a i x c ≡ ok r
    → SameUnits c r.0
unfolding transfer_staked_tokens
transfer_staked_tokens-SameUnits a i x c {r} e = ground arith

pub transfer_farmed_tokens-SameUnits :
    (a : AccountId) (i : ℕ) (x : Balance) (c : Contract) {r : Contract × List Promise}
    → transfer_farmed_tokens a i x c ≡ ok r
    → SameUnits c r.0
unfolding transfer_farmed_tokens
transfer_farmed_tokens-SameUnits a i x c {r} e = ground arith

pub withdraw_crop_from-SameUnits :
    (n i : ℕ) (a : AccountId) (x : Balance) (c : Contract) {r : Contract × List Promise}
    → withdraw_crop_from n i a x c ≡ ok r
    → SameUnits c r.0
unfolding withdraw_crop_from
withdraw_crop_from-SameUnits zero i a x c {r} e = ground arith
withdraw_crop_from-SameUnits (suc n) i a x c {r} e =
    grind (arith, transfer_farmed_tokens-SameUnits, withdraw_crop_from-SameUnits n)

pub send_crop-SameUnits :
    (a : AccountId) (x : Balance) (c : Contract) {r : Contract × List Promise}
    → send_crop a x c ≡ ok r
    → SameUnits c r.0
unfolding send_crop
send_crop-SameUnits a x c {r} e = grind (arith, withdraw_crop_from-SameUnits)

pub return_staked_from-SameUnits :
    (n i : ℕ) (a : AccountId) (xs : List Balance) (c : Contract) {r : Contract × List Promise}
    → return_staked_from n i a xs c ≡ ok r
    → SameUnits c r.0
unfolding return_staked_from
return_staked_from-SameUnits zero i a xs c {r} e = ground arith
return_staked_from-SameUnits (suc n) i a xs c {r} e =
    grind (arith, transfer_staked_tokens-SameUnits, return_staked_from-SameUnits n)

-- Without a Cheddy the units are those of the tokens.
no_cheddy-units :
    (v : Vault) (s : Balance) (rates : List ℕ) (boost : ℕ)
    → v.cheddy ≡ ""
    → min_stake v.staked rates ≡ ok s
    → IsRated rates boost v
    → v.min_stake ≡ s
unfolding is_empty
no_cheddy-units v s rates boost no_cheddy e h = ground (arith, h, ap is_empty no_cheddy)

empty_vault-units :
    (v : Vault) (rates : List ℕ) (boost : ℕ)
    → is_empty_vault v ≡ true
    → IsRated rates boost v
    → 0 < length rates
    → v.min_stake ≡ 0
unfolding is_empty_vault
empty_vault-units v rates boost empty h rate = grind (arith, min_stake-zeros)

-- What giving up a Cheddy does to the units, given those of the tokens alone.
abbrev pub GaveUp : Vault → Balance → Contract → Vault × Contract × List Promise → Type 0
GaveUp v s c r =
    (r.0.min_stake ≡ s)
    × (r.1.vaults ≡ c.vaults)
    × (r.1.staked_units + v.min_stake ≡ c.staked_units + s)
    × SameSettings c r.1
    × IsRated c.stake_rates c.cheddar_nft_boost r.0

pub send_nft-GaveUp :
    (env : Env) (a : AccountId) (v : Vault) (b : AccountId) (s : Balance) (c : Contract)
    → min_stake v.staked c.stake_rates ≡ ok s
    → Ensures (GaveUp v s c) (send_nft env a v b c)
unfolding send_nft
send_nft-GaveUp env a v b s c e =
    Ensures-bind (GaveUp v s c) (assert (not (is_empty v.cheddy)) "Sender has no NFT deposit") _
      λ _ _. Ensures-bind (GaveUp v s c) (ping_all env v c) _ λ (v1, c1) pinged.
        Ensures-bind (GaveUp v s c) (recompute_stake (record v1 { cheddy = "" }) c1) _
          λ (v2, c2) counted.
            let moved = recompute_stake_inv _ c1 counted in
            let same = ping_all_inv env v c pinged in
            let unboosted =
              no_cheddy-units v2 s _ _ (ground (arith, moved)) (ground (arith, moved, same, e))
                (recompute_stake-IsRated _ c1 counted) in
            ground (arith, recompute_stake-IsRated _ c1 counted, moved, same, unboosted)

-- Once a vault is off the map, its units are all that the farm has too many, but for those already
-- taken off.
abbrev pub IsCountedWithout : Vault → Balance → Contract → Type 0
IsCountedWithout v s c =
    (units c + v.min_stake ≡ c.staked_units + s)
    × All (IsRated c.stake_rates c.cheddar_nft_boost) c.vaults
    × (length c.stake_tokens ≡ length c.stake_rates)
    × (0 < length c.stake_rates)
    × IsRated c.stake_rates c.cheddar_nft_boost v

return_nft-IsCounted :
    (env : Env) (a : AccountId) (v : Vault) (s : Balance) (c : Contract)
    → min_stake v.staked c.stake_rates ≡ ok s
    → IsCountedWithout v s c
    → Ensures FirstCounted (return_nft env a v c)
unfolding return_nft
return_nft-IsCounted env a v s c e h =
    Ensures-if FirstCounted (is_empty v.cheddy) _ _ (λ none. ground (arith, h, e))
      (λ has. Ensures-bind FirstCounted (send_nft env a v a c) _ λ r done.
        let gave = Ensures-at (GaveUp v s c) _ (send_nft-GaveUp env a v a s c e) done in
        ground (arith, h, gave, ap (sum_by units_of) gave.1))

pay_out-IsCounted :
    (env : Env) (a : AccountId) (v : Vault) (c : Contract)
    → IsCountedWithout v 0 c
    → Ensures FirstCounted (pay_out env a v c)
unfolding pay_out
pay_out-IsCounted env a v c h =
    Ensures-if FirstCounted (is_empty_vault v) _ _
      (λ empty. ground (arith, h, empty_vault-units v _ _ empty h.4 h.3))
      (λ _. Ensures-bind FirstCounted (min_stake v.staked c.stake_rates) _ λ s e.
        Ensures-bind FirstCounted (checked_sub c.staked_units s) _ λ left taken.
          Ensures-bind FirstCounted
            (return_staked_from (length c.total_stake) 0 a v.staked
              (record c { staked_units = left }))
            _
            λ (c1, ps) returned.
              Ensures-bind FirstCounted (send_crop a v.farmed c1) _ λ (c2, qs) sent.
                Ensures-bind FirstCounted (return_nft env a v c2) _ λ (c3, rs) done.
                  let returned_same = return_staked_from-SameUnits _ _ _ _ _ returned in
                  let sent_same = send_crop-SameUnits _ _ _ sent in
                  Ensures-at FirstCounted _
                    (return_nft-IsCounted env a v s c2 (ground (arith, e, returned_same, sent_same))
                      (ground (arith, h, returned_same, sent_same, checked_sub_inv _ _ taken)))
                    done)

pub close-IsCounted : (env : Env) (c : Contract) → IsCounted c → Ensures FirstCounted (close env c)
unfolding close
close-IsCounted env c h =
    let a = env.predecessor_account_id in
    Ensures-bind FirstCounted (assert_is_active c) _ λ _ _.
      Ensures-bind FirstCounted (assert_one_yocto env) _ λ _ _.
        Ensures-bind FirstCounted (get_vault c a) _ λ v found.
          Ensures-bind FirstCounted (ping_all env v c) _ λ (v1, c1) pinged.
            Ensures-bind FirstCounted (checked_sub c1.accounts_registered 1) _ λ n _.
              pay_out-IsCounted env a v1 _ (
                ground (
                  arith,
                  h.counted,
                  h.one_rate_each,
                  h.has_rate,
                  pinged-IsCountedWith env a v c h (get_vault_inv a c found) pinged,
                  ping_all_inv env v c pinged,
                  sum_by-remove units_of a c1.vaults,
                  All-remove (IsRated c.stake_rates c.cheddar_nft_boost) a c.vaults h.rated,
                  All-get (IsRated c.stake_rates c.cheddar_nft_boost) a c.vaults h.rated
                      (get_vault_inv a c found),
                ))
