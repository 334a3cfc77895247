-- ===== src/P4Farm/Stakes/Returns.antt =====
-- What unstaking an NFT does to a vault and to the totals (p4-farm-nft/src/lib.rs, vault.rs).
use text.Mathlib.Text.{◌==◌ as str_eq}
use text.Mathlib.TextEquality.{eq_iff}
use cheddar.Prelude.{
  ℕ, zero, suc, ◌+◌, ◌≡◌, ◌≢◌, refl, ap, List, [], ◌∷◌, ◌++◌, get_elem?, set, some, ok, arith, ◌==◌,
  Ensures, Ensures-bind, Ensures-at, Ensures-if, Option-cases, Bool-cases, inl, inr, String,
}
use cheddar.Near.{Env, AccountId, Balance}
use cheddar.Near.LookupMap.{get, insert}
use cheddar.P3Lib.{index, sub_at, find_acc_idx, position}
use cheddar.P4Farm.State.{
  TokenId, ParseAccount, Vault, Contract, Promise, nft_transfer, staked_sent,
}
use cheddar.P4Farm.Identifiers.{find_token_idx, token_position}
use cheddar.P4Farm.Rewards.{
  get_vault, get_number_of_staked_tokens, ping_all, recompute_stake, put_vault,
}
use cheddar.P4Farm.Transfers.{transfer_staked_nft}
use cheddar.P4Farm.Staking.{assert_is_active, assert_one_yocto, unstake, unstake_one, remove_elem}
use cheddar.P4Farm.Accounts.Changes.{ping_all_inv, recompute_stake_inv}
use cheddar.P4Farm.Stakes.{nft_count, sum_lengths-count, sub_at_inv}

-- The NFT was in the list, and the rest is the list without that one.
abbrev pub Removed : TokenId → List TokenId → List TokenId → Type 0
Removed t held rest =
    (before : List TokenId) × (after : List TokenId) × (held ≡ before ++ (t ∷ after))
    × (rest ≡ before ++ after)

remove_elem-Removed :
    (t : TokenId) (xs : List TokenId) (k : ℕ)
    → token_position t xs ≡ some k
    → Removed t xs (remove_elem xs k)
unfolding token_position
remove_elem-Removed t [] k e = absurd (ground arith)
remove_elem-Removed t (x ∷ xs) zero e = elim (Bool-cases (str_eq x t)) [
  | inl same ↦ ([], xs, ap (λ (y : String). y ∷ xs) ((eq_iff x t).0 same), refl)
  | inr other ↦ elim (Option-cases (token_position t xs)) [
    | inl missing ↦ absurd (ground arith)
    | inr (j, found) ↦ absurd (ground arith)
  ]
]
remove_elem-Removed t (x ∷ xs) (suc k) e =
    let (before, after, held, rest) = remove_elem-Removed t xs k (ground arith) in
    (
      x ∷ before,
      after,
      ap (λ (ys : List TokenId). x ∷ ys) held,
      ap (λ (ys : List TokenId). x ∷ ys) rest,
    )

find_acc_idx-at :
    (a : AccountId) (xs : List AccountId) {j : ℕ}
    → find_acc_idx a xs ≡ ok j
    → get_elem? xs j ≡ some a
unfolding find_acc_idx position
find_acc_idx-at a [] {j} e = absurd (ground arith)
find_acc_idx-at a (x ∷ xs) {j} e = elim (Option-cases (position a xs)) [
  | inl missing ↦ ground arith
  | inr (k, found) ↦ ground (arith, find_acc_idx-at a xs {j = k})
]

-- The NFT left the vault and the total of its contract, and is sent to the user.
abbrev pub Unstaked :
    AccountId
    → AccountId
    → ℕ
    → TokenId
    → Vault
    → Contract
    → Contract × List TokenId × List Promise
    → Type 0
Unstaked a nft i t v c r =
    (w : Vault) × (held : List TokenId) × (total : Balance) × (r.0.vaults ≡ insert a w c.vaults)
    × (get_elem? v.staked i ≡ some held)
    × Removed t held r.1
    × (w.staked ≡ set v.staked i r.1)
    × (get_elem? c.total_stake i ≡ some (total + 1))
    × (r.0.total_stake ≡ set c.total_stake i total)
    × (w.cheddar_staked ≡ v.cheddar_staked)
    × (r.2 ≡ nft_transfer nft a t (staked_sent a i t) ∷ [])

abbrev Sent : AccountId → AccountId → ℕ → TokenId → Contract → Contract × List Promise → Type 0
Sent a nft i t c r =
    (total : Balance) × (r.0.vaults ≡ c.vaults)
    × (get_elem? c.total_stake i ≡ some (total + 1))
    × (r.0.total_stake ≡ set c.total_stake i total)
    × (r.1 ≡ nft_transfer nft a t (staked_sent a i t) ∷ [])

transfer_staked_nft-Sent :
    (a nft : AccountId) (i : ℕ) (t : TokenId) (c : Contract)
    → get_elem? c.stake_nft_tokens i ≡ some nft
    → Ensures (Sent a nft i t c) (transfer_staked_nft a i t c)
unfolding transfer_staked_nft index
transfer_staked_nft-Sent a nft i t c is_nft =
    let P = Sent a nft i t c in
    Ensures-bind P (index c.stake_nft_tokens i) _ λ it it_is.
      Ensures-bind P (sub_at c.total_stake i 1) _ λ total less.
        let (sum, sum_is, new_sum_is) = sub_at_inv c.total_stake i 1 less in
        (sum, refl, sum_is, new_sum_is, ground (arith, is_nft, it_is))

module _ (parse : ParseAccount) where
  unstake_one-Unstaked :
      (env : Env) (a nft : AccountId) (i k : ℕ) (t : TokenId) (ts : List TokenId) (v : Vault)
      (c : Contract)
      → get_elem? c.stake_nft_tokens i ≡ some nft
      → get_elem? v.staked i ≡ some ts
      → token_position t ts ≡ some k
      → Ensures (Unstaked a nft i t v c) (unstake_one parse env a i k t v c)
  unfolding unstake_one put_vault index
  unstake_one-Unstaked env a nft i k t ts v c is_nft held_is at_k =
      let P = Unstaked a nft i t v c in
      Ensures-bind P (ping_all env v c) _ λ (v1, c1) pinged.
        Ensures-bind P (index v1.staked i) _ λ now read.
          Ensures-bind P
            (recompute_stake parse (record v1 { staked = set v1.staked i (remove_elem now k) }) c1)
            _
            λ (w, c2) counted.
              Ensures-bind P (transfer_staked_nft a i t (put_vault a w c2)) _ λ (c3, ps) sent.
                let ping = ping_all_inv env v c pinged in
                let kept = recompute_stake_inv parse _ _ counted in
                let again : now ≡ ts = ground (arith, ping, held_is, read) in
                let (sum, vaults_are, sum_is, new_sum_is, promise) =
                  Ensures-at (Sent a nft i t (put_vault a w c2)) _
                    (transfer_staked_nft-Sent a nft i t (put_vault a w c2)
                      (ground (arith, ping, kept, is_nft)))
                    sent in
                (
                  w,
                  ts,
                  sum,
                  ground (arith, vaults_are, kept, ping, ap (insert a w) kept.4),
                  held_is,
                  rw again (remove_elem-Removed t ts k at_k),
                  ground (arith, kept, ping),
                  ground (arith, kept, ping, sum_is),
                  ground (arith, kept, ping, new_sum_is),
                  ground (arith, kept, ping),
                  promise,
                )

  -- A registered user with more than one NFT, or none, staked takes one back, unless the call panics:
  -- exactly that NFT leaves the vault and the total of its contract and is sent to the user, the
  -- answer is what is left of the contract, the Cheddar stays in the vault, and no other vault changes.
  pub unstake-Unstaked :
      (env : Env) (nft : AccountId) (t : TokenId) (i : ℕ) (v : Vault) (c : Contract)
      → get env.predecessor_account_id c.vaults ≡ some v
      → find_acc_idx nft c.stake_nft_tokens ≡ ok i
      → nft_count v.staked ≢ 1
      → Ensures (Unstaked env.predecessor_account_id nft i t v c) (unstake parse env nft t c)
  unfolding unstake get_vault index find_token_idx get_number_of_staked_tokens
  unstake-Unstaked env nft t i v c found at_i many =
      let a = env.predecessor_account_id in
      let P = Unstaked a nft i t v c in
      Ensures-bind P (assert_is_active c) _ λ _ _. Ensures-bind P (assert_one_yocto env) _ λ _ _.
        Ensures-bind P (find_acc_idx nft c.stake_nft_tokens) _ λ j at_j.
          Ensures-bind P (get_vault c a) _ λ u found_u.
            Ensures-bind P (index u.staked j) _ λ ts read.
              Ensures-bind P (find_token_idx t ts) _ λ k known.
                Ensures-bind P (get_number_of_staked_tokens u) _ λ n counted.
                  let same : u ≡ v = ground (arith, found, found_u) in
                  let same_i : j ≡ i = ground (arith, at_i, at_j) in
                  Ensures-if P (n == 1) _ _
                    (λ one.
                      absurd (many (ground (arith, same, sum_lengths-count 0 u.staked counted))))
                    (λ _.
                      rw (same, same_i)
                        (unstake_one-Unstaked env a nft i k t ts v c
                          (find_acc_idx-at nft c.stake_nft_tokens at_i)
                          (ground (arith, read, same, same_i)) (ground (arith, known))))
