-- ===== src/P4Farm/Stakes.antt =====
-- What staking and unstaking an NFT do to a vault and to the totals (p4-farm-nft/src/vault.rs,
-- token_standards.rs).
pub mod Returns
use cheddar.Prelude.{
  ℕ, ◌+◌, ◌*◌, ◌≤◌, ◌≡◌, refl, ap, true, Bool, List, [], ◌∷◌, ◌++◌, length, get_elem?, set, some,
  ok, arith, leb, ◌!=◌, ◌==◌, assert, Ensures, Ensures-bind, Ensures-at, Option-cases, Result-cases,
  inl, inr, String,
}
use cheddar.Prelude.Words.{add_u128, checked_sub, fit}
use cheddar.Near.{Env, AccountId, Balance}
use cheddar.Near.LookupMap.{get, insert}
use cheddar.P3Lib.{index, add_at, sub_at, find_acc_idx}
use cheddar.P4Farm.State.{
  TokenId, ParseAccount, Vault, Contract, Promise, nft_transfer, staked_sent,
}
use cheddar.P4Farm.Identifiers.{add_usize, expected_cheddar_stake}
use cheddar.P4Farm.Rewards.{
  get_vault, get_number_of_staked_tokens, sum_lengths, ping_all, recompute_stake, put_vault,
}
use cheddar.P4Farm.Transfers.{push_at, transfer_staked_nft}
use cheddar.P4Farm.Staking.{assert_is_active, nft_stake, unstake_one, remove_elem}
use cheddar.P4Farm.Methods.{nft_on_transfer, to_farm}
use cheddar.P4Farm.Accounts.Changes.{ping_all_inv, recompute_stake_inv}

-- The number of NFTs of a vault, of all contracts.
abbrev pub nft_count : List (List TokenId) → ℕ
nft_count [] = 0
nft_count (x ∷ xs) = length x + nft_count xs

pub sum_lengths-count :
    (acc : ℕ) (xs : List (List TokenId)) {n : ℕ}
    → sum_lengths acc xs ≡ ok n
    → n ≡ acc + nft_count xs
unfolding sum_lengths add_usize fit
sum_lengths-count acc [] {n} e = ground arith
sum_lengths-count acc (x ∷ xs) {n} e = ground (arith, sum_lengths-count (acc + length x) xs {n = n})

-- The vault has the NFT more, at the end of its contract's, and the total of the contract is one
-- more; the vault's Cheddar is enough for one NFT more than it had.
abbrev pub Staked : AccountId → ℕ → TokenId → Vault → Contract → Contract × Bool → Type 0
Staked a i t v c r =
    (w : Vault) × (held : List TokenId) × (total : Balance) × (r.0.vaults ≡ insert a w c.vaults)
    × (get_elem? v.staked i ≡ some held)
    × (w.staked ≡ set v.staked i (held ++ t ∷ []))
    × (get_elem? c.total_stake i ≡ some total)
    × (r.0.total_stake ≡ set c.total_stake i (total + 1))
    × (w.cheddar_staked ≡ v.cheddar_staked)
    × (w.boost_nft ≡ v.boost_nft)
    × ((nft_count v.staked + 1) * c.cheddar_rate ≤ v.cheddar_staked)
    × (r.1 ≡ true)

push_at_inv :
    (xs : List (List TokenId)) (i : ℕ) (t : TokenId) {ys : List (List TokenId)}
    → push_at xs i t ≡ ok ys
    → (held : List TokenId) × (get_elem? xs i ≡ some held) × (ys ≡ set xs i (held ++ t ∷ []))
unfolding push_at index
push_at_inv xs i t {ys} e = elim (Option-cases (get_elem? xs i)) [
  | inl missing ↦ absurd (ground arith)
  | inr (held, found) ↦ (held, found, ground arith)
]

add_at_inv :
    (xs : List Balance) (i : ℕ) (x : Balance) {ys : List Balance}
    → add_at xs i x ≡ ok ys
    → (old : Balance) × (get_elem? xs i ≡ some old) × (ys ≡ set xs i (old + x))
unfolding add_at index add_u128 fit
add_at_inv xs i x {ys} e = elim (Option-cases (get_elem? xs i)) [
  | inl missing ↦ absurd (ground arith)
  | inr (old, found) ↦ (old, found, ground arith)
]

pub sub_at_inv :
    (xs : List Balance) (i : ℕ) (x : Balance) {ys : List Balance}
    → sub_at xs i x ≡ ok ys
    → (new : Balance) × (get_elem? xs i ≡ some (new + x)) × (ys ≡ set xs i new)
unfolding sub_at index
sub_at_inv xs i x {ys} e = elim (Option-cases (get_elem? xs i)) [
  | inl missing ↦ absurd (ground arith)
  | inr (old, found) ↦ elim (Result-cases (checked_sub old x)) [
    | inl (new, less) ↦ (new, unfold checked_sub in ground arith, ground arith)
    | inr (m, refused) ↦ absurd (ground arith)
  ]
]

enough_cheddar :
    (v : Vault) (rate : Balance) {n expected : ℕ}
    → get_number_of_staked_tokens v ≡ ok n
    → expected_cheddar_stake n rate ≡ ok expected
    → (nft_count v.staked + 1) * rate ≡ expected
unfolding get_number_of_staked_tokens expected_cheddar_stake add_usize fit
enough_cheddar v rate {n} {expected} counted e =
    let same = sum_lengths-count 0 v.staked counted in
    ground (arith, same, ap (λ (t : ℕ). (t + 1) * rate) same)

module _ (parse : ParseAccount) where
  nft_stake-Staked :
      (env : Env) (a nft : AccountId) (t : TokenId) (i : ℕ) (v : Vault) (c : Contract)
      → get a c.vaults ≡ some v
      → find_acc_idx nft c.stake_nft_tokens ≡ ok i
      → Ensures (Staked a i t v c) (nft_stake parse env a nft t c)
  unfolding nft_stake put_vault get_vault
  nft_stake-Staked env a nft t i v c found at_i =
      let P = Staked a i t v c in
      Ensures-bind P (find_acc_idx nft c.stake_nft_tokens) _ λ j at_j.
        Ensures-bind P (get_vault c a) _ λ u found_u.
          Ensures-bind P (get_number_of_staked_tokens u) _ λ n counted.
            Ensures-bind P (expected_cheddar_stake n c.cheddar_rate) _ λ expected expected_is.
              Ensures-bind P (assert (leb expected u.cheddar_staked) _) _ λ _ enough.
                Ensures-bind P (ping_all env u c) _ λ (v1, c1) pinged.
                  Ensures-bind P (push_at v1.staked j t) _ λ staked pushed.
                    Ensures-bind P (add_at c1.total_stake j 1) _ λ total more.
                      Ensures-bind P
                        (recompute_stake parse (record v1 { staked = staked })
                          (record c1 { total_stake = total }))
                        _
                        λ (w, c2) recounted.
                          let (held, held_is, new_is) = push_at_inv v1.staked j t pushed in
                          let (sum, sum_is, new_sum_is) = add_at_inv c1.total_stake j 1 more in
                          let ping = ping_all_inv env u c pinged in
                          let kept = recompute_stake_inv parse _ _ recounted in
                          let same : v ≡ u = ground (arith, found, found_u) in
                          let same_i : i ≡ j = ground (arith, at_i, at_j) in
                          let rate = enough_cheddar u c.cheddar_rate counted expected_is in
                          let fits : expected ≤ u.cheddar_staked = ground (arith, enough) in
                          (
                            w,
                            held,
                            sum,
                            ground (arith, kept, ping, ap (insert a w) kept.4),
                            ground (arith, ping, same, same_i, held_is),
                            ground (arith, kept, ping, same, same_i, new_is),
                            ground (arith, ping, same_i, sum_is),
                            ground (arith, kept, ping, same_i, new_sum_is),
                            ground (arith, kept, ping, same),
                            ground (arith, kept, ping, same),
                            rw same (ground (arith, rate, fits)),
                            refl,
                          )

  -- An NFT of a stake contract that a registered user sends "to farm", unless the call panics: the
  -- vault and the total of that contract have exactly this NFT more, the vault had the Cheddar for
  -- one more, its Cheddar and boost stay, no other vault changes, and the answer is true, which tells
  -- the NFT contract to give the NFT back.
  pub nft_on_transfer-Staked :
      (env : Env) (a : AccountId) (t : TokenId) (i : ℕ) (v : Vault) (c : Contract)
      → get a c.vaults ≡ some v
      → find_acc_idx env.predecessor_account_id c.stake_nft_tokens ≡ ok i
      → Ensures (Staked a i t v c) (nft_on_transfer parse env a t to_farm c)
  unfolding nft_on_transfer
  nft_on_transfer-Staked env a t i v c found at_i =
      let P = Staked a i t v c in
      let nft = env.predecessor_account_id in
      Ensures-bind P (assert (nft != env.signer_account_id) _) _ λ _ _.
        Ensures-bind P (assert (a == env.signer_account_id) _) _ λ _ _.
          Ensures-bind P (assert_is_active c) _ λ _ _.
            Ensures-bind P (nft_stake parse env a nft t c) _ λ r done.
              let s = Ensures-at P _ (nft_stake-Staked env a nft t i v c found at_i) done in
              (s.0, s.1, s.2, s.3, s.4, s.5, s.6, s.7, s.8, s.9, s.10, refl)
