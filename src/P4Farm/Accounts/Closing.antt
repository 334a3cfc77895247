-- ===== src/P4Farm/Accounts/Closing.antt =====
-- The totals of the P4 farm when a boost NFT is given up and when an account is closed
-- (p4-farm-nft/src/lib.rs, vault.rs).
use cheddar.Prelude.{
  ℕ, ◌-◌, ◌≤◌, ◌≡◌, refl, true, List, [], length, some, ok, arith, ap, not, assert, Ensures,
  Ensures-bind, Ensures-at, Ensures-if, Ensures-intro,
}
use cheddar.Prelude.Words.{checked_sub, checked_sub_inv}
use cheddar.Near.{Env, AccountId, Balance}
use cheddar.Near.LookupMap.{get, get-insert}
use cheddar.P3Lib.{sub_at, find_acc_idx}
use cheddar.P4Farm.State.{ParseAccount, Vault, Contract, Promise}
use cheddar.P4Farm.Identifiers.{is_empty, min_stake, extract_contract_token_ids}
use cheddar.P4Farm.Rewards.{ping_all, recompute_stake, put_vault, get_vault}
use cheddar.P4Farm.Transfers.{send_crop}
use cheddar.P4Farm.Staking.{
  return_staked_from, return_cheddar, send_boost_nft, return_boost, pay_out,
}
use cheddar.P4Farm.Counts.{nfts_at}
use cheddar.P4Farm.Accounts.{SameTotals, IsRated, Owes, OwesFor, kept-Owes, put-Owes}
use cheddar.P4Farm.Accounts.Changes.{
  ping_all_inv, recompute_stake_inv, recompute_stake-IsRated, recomputed-Owes,
}
use cheddar.P4Farm.Accounts.Exits.{
  Returned, within, return_staked_from-Returned, FirstSame, send_crop-SameTotals, CheddarSent,
  return_cheddar-CheddarSent, min_stake-le-units,
}

unboosted-units :
    (parse : ParseAccount) (v : Vault) (c : Contract) {s : Balance}
    → v.boost_nft ≡ ""
    → min_stake v.staked c.stake_rates ≡ ok s
    → IsRated parse c v
    → v.min_stake ≡ s
unfolding is_empty
unboosted-units parse v c {s} none e h = ground (arith, h, e, ap is_empty none)

pub get_vault_inv :
    (a : AccountId) (c : Contract) {v : Vault} → get_vault c a ≡ ok v → get a c.vaults ≡ some v
unfolding get_vault
get_vault_inv a c {v} e = ground arith

module _ (parse : ParseAccount) (i : ℕ) where
  -- The vault has the units s of its tokens alone, of which k were taken off before.
  abbrev pub GaveUp : AccountId → (s k n x : ℕ) → Vault → Vault × Contract × List Promise → Type 0
  GaveUp a s k n x v r =
      (r.0.min_stake ≡ s)
      × (r.0.staked ≡ v.staked)
      × (r.0.cheddar_staked ≡ v.cheddar_staked)
      × (get a r.1.vaults ≡ some r.0)
      × Owes parse i a (s - k) n x r.1

  recomputed-GaveUp :
      (a : AccountId) (s k n x : ℕ) (v w v2 : Vault) (c d c2 : Contract)
      → recompute_stake parse w d ≡ ok (v2, c2)
      → w.boost_nft ≡ ""
      → (w.min_stake ≡ v.min_stake) × (w.staked ≡ v.staked) × (w.cheddar_staked ≡ v.cheddar_staked)
      → SameTotals c d
      → min_stake v.staked c.stake_rates ≡ ok s
      → k ≤ s
      → s ≤ v.min_stake
      → Owes parse i a (v.min_stake - k) n x c
      → GaveUp a s k n x v (v2, put_vault a v2 c2, [])
  unfolding put_vault
  recomputed-GaveUp a s k n x v w v2 c d c2 counted none like same e taken less h =
      let moved = recompute_stake_inv parse w d counted in
      let rated = recompute_stake-IsRated parse w d counted in
      let alone : v2.min_stake ≡ s =
        unboosted-units parse v2 c2 {s = s} (ground (arith, moved, none))
          (ground (arith, moved, like, same, e)) rated in
      let owed : Owes parse i a (w.min_stake - k) n x d =
        kept-Owes parse i a (w.min_stake - k) n x c d same (ground (arith, h, like)) in
      let left =
        recomputed-Owes parse i a k n x w d counted (ground (arith, like)) (ground (arith, alone))
          owed in
      let put = put-Owes parse i a _ n x v2 c2 left rated in
      (
        alone,
        ground (arith, moved, like),
        ground (arith, moved, like),
        ground (arith, get-insert a a v2 c2.vaults),
        ground (arith, put, alone),
      )

  pub send_boost_nft-GaveUp :
      (env : Env) (a : AccountId) (s k n x : ℕ) (v : Vault) (c : Contract)
      → min_stake v.staked c.stake_rates ≡ ok s
      → k ≤ s
      → s ≤ v.min_stake
      → Owes parse i a (v.min_stake - k) n x c
      → Ensures (GaveUp a s k n x v) (send_boost_nft parse env a v c)
  unfolding send_boost_nft
  send_boost_nft-GaveUp env a s k n x v c e taken less h =
      let P = GaveUp a s k n x v in
      Ensures-bind P (assert (not (is_empty v.boost_nft)) "Sender has no NFT deposit") _ λ _ _.
        Ensures-bind P (ping_all env v c) _ λ (v1, c1) pinged.
          Ensures-bind P (extract_contract_token_ids parse v1.boost_nft) _ λ (nft, token) _.
            Ensures-bind P (find_acc_idx nft c1.boost_nft_contracts) _ λ j _.
              Ensures-bind P (sub_at c1.total_boost j 1) _ λ total _.
                Ensures-bind P
                  (recompute_stake parse (record v1 { boost_nft = "" })
                    (record c1 { total_boost = total }))
                  _
                  λ (v2, c2) counted.
                    let same = ping_all_inv env v c pinged in
                    recomputed-GaveUp a s k n x v _ v2 c _ c2 counted refl (ground (arith, same))
                      (ground (arith, same)) e taken less h

  -- The account is owed no units and no NFTs any more, and the Cheddar that its vault has.
  abbrev pub OnlyCheddar : AccountId → ℕ → Vault × Contract × List Promise → Type 0
  OnlyCheddar a x r = (r.0.cheddar_staked ≡ x) × Owes parse i a 0 0 x r.1

  return_boost-OnlyCheddar :
      (env : Env) (a : AccountId) (s x : ℕ) (v : Vault) (c : Contract)
      → min_stake v.staked c.stake_rates ≡ ok s
      → (s ≤ v.min_stake) × (is_empty v.boost_nft ≡ true → v.min_stake ≡ s)
      → v.cheddar_staked ≡ x
      → Owes parse i a (v.min_stake - s) 0 x c
      → Ensures (OnlyCheddar a x) (return_boost parse env a v c)
  unfolding return_boost
  return_boost-OnlyCheddar env a s x v c e less same h =
      Ensures-if (OnlyCheddar a x) (is_empty v.boost_nft) _ _
        (λ none. ground (arith, same, h, less.1 none))
        (λ _. Ensures-intro (OnlyCheddar a x) _ λ r done.
          let gave =
            Ensures-at (GaveUp a s s 0 x v) _
              (send_boost_nft-GaveUp env a s s 0 x v c e (omega arith) less.0 h) done in
          ground (arith, gave, same))

  abbrev pub Settled : AccountId → Contract × List Promise → Type 0
  Settled a r = Owes parse i a 0 0 0 r.0

  -- All NFTs of the vault went back.
  nfts_back-Owes :
      (a : AccountId) (u x : ℕ) (v : Vault) (c d : Contract) (ps : List Promise)
      → Returned i (within i 0 (length c.total_stake) v.staked) c (d, ps)
      → Owes parse i a u (nfts_at i v.staked) x c
      → Owes parse i a u 0 x d
  nfts_back-Owes a u x v c d ps same h = ground (
    arith,
    h.units,
    h.nfts,
    h.cheddar,
    h.rated,
    h.in_range,
    h.one_rate_each,
    h.has_rate,
    same,
    ap (get a) same.1.0,
  )

  taken-Owes :
      (a : AccountId) (s : ℕ) (v : Vault) (c : Contract) {left : ℕ}
      → checked_sub c.staked_units s ≡ ok left
      → s ≤ v.min_stake
      → OwesFor parse i a v c
      → Owes parse i a
          (v.min_stake - s)
          (nfts_at i v.staked)
          v.cheddar_staked
          (record c { staked_units = left })
  taken-Owes a s v c {left} e less h = ground (
    arith,
    h.units,
    h.nfts,
    h.cheddar,
    h.rated,
    h.in_range,
    h.one_rate_each,
    h.has_rate,
    checked_sub_inv c.staked_units s e,
  )

  cheddar-Owes :
      (a : AccountId) (v : Vault) (c : Contract) (r : Contract × List Promise)
      → CheddarSent v c r
      → Owes parse i a 0 0 v.cheddar_staked c
      → Settled a r
  cheddar-Owes a v c r same h = ground (
    arith,
    h.units,
    h.nfts,
    h.cheddar,
    h.rated,
    h.in_range,
    h.one_rate_each,
    h.has_rate,
    same,
    ap (get a) same.1,
  )

  pub pay_out-Settled :
      (env : Env) (a : AccountId) (v : Vault) (c : Contract)
      → OwesFor parse i a v c
      → IsRated parse c v
      → Ensures (Settled a) (pay_out parse env a v c)
  unfolding pay_out
  pay_out-Settled env a v c h rated =
      Ensures-bind (Settled a) (min_stake v.staked c.stake_rates) _ λ s e.
        Ensures-bind (Settled a) (checked_sub c.staked_units s) _ λ left taken.
          Ensures-bind (Settled a)
            (return_staked_from (length c.total_stake) 0 a v.staked
              (record c { staked_units = left }))
            _
            λ (c1, ps) returned.
              Ensures-bind (Settled a) (send_crop a v.farmed c1) _ λ (c2, qs) sent.
                Ensures-bind (Settled a) (return_boost parse env a v c2) _ λ (w, c3, rs) boost.
                  Ensures-bind (Settled a) (return_cheddar a w c3) _ λ (c4, ss) paid.
                    let less = min_stake-le-units parse v c e rated in
                    let back =
                      Ensures-at (Returned i _ (record c { staked_units = left })) _
                        (return_staked_from-Returned i (length c.total_stake) 0 a v.staked _)
                        returned in
                    let crop =
                      Ensures-at (FirstSame c1) _ (send_crop-SameTotals a v.farmed c1) sent in
                    let owed = kept-Owes parse i a _ 0 _ c1 c2 crop (
                      nfts_back-Owes a (v.min_stake - s) v.cheddar_staked v _ c1 ps back
                        (taken-Owes a s v c taken less.0 h)) in
                    let only =
                      Ensures-at (OnlyCheddar a v.cheddar_staked) _
                        (return_boost-OnlyCheddar env a s v.cheddar_staked v c2
                          (ground (arith, e, back, crop)) less refl owed)
                        boost in
                    let gone =
                      Ensures-at (CheddarSent w c3) _ (return_cheddar-CheddarSent a w c3) paid in
                    cheddar-Owes a w c3 (c4, ss) gone (ground (arith, only))
