-- ===== src/P4Farm/Counts.antt =====
-- The lists of NFTs and of totals at one index (p4-farm-nft/src/vault.rs, lib.rs).
use cheddar.Prelude.{
  ℕ, zero, suc, ◌+◌, ◌-◌, ◌≡◌, refl, true, List, [], ◌∷◌, ◌++◌, some, get_or, ok, arith, set,
  get_elem?, length, length-append, replicate, ◌==◌, if◌then◌else◌, Option-cases, inl, inr,
}
use cheddar.Prelude.Words.{add_u128, checked_sub, fit}
use cheddar.Near.{Balance}
use cheddar.P3Lib.{index, add_at, sub_at}
use cheddar.P4Farm.State.{TokenId}
use cheddar.P4Farm.Identifiers.{check_all_empty, token_position, find_token_idx}
use cheddar.P4Farm.Transfers.{push_at}
use cheddar.P4Farm.Staking.{remove_elem}

-- The number of NFTs of the contract at that index, and the total there.
abbrev pub nfts_at : ℕ → List (List TokenId) → ℕ
nfts_at i xs = length (get_or (get_elem? xs i) [])

abbrev pub total_at : ℕ → List Balance → ℕ
total_at i xs = get_or (get_elem? xs i) 0

abbrev pub at_index : ℕ → ℕ → ℕ → ℕ
at_index i j n = if i == j then n else 0

total_at-set :
    (i j n : ℕ) (xs : List Balance) {old : Balance}
    → get_elem? xs j ≡ some old
    → total_at i (set xs j n) ≡ (if i == j then n else total_at i xs)
total_at-set i j n [] {old} e = absurd (ground arith)
total_at-set zero zero n (x ∷ xs) {old} e = refl
total_at-set zero (suc j) n (x ∷ xs) {old} e = ground arith
total_at-set (suc i) zero n (x ∷ xs) {old} e = ground arith
total_at-set (suc i) (suc j) n (x ∷ xs) {old} e = ground (arith, total_at-set i j n xs e)

nfts_at-set :
    (i j : ℕ) (ts : List TokenId) (xs : List (List TokenId)) {old : List TokenId}
    → get_elem? xs j ≡ some old
    → nfts_at i (set xs j ts) ≡ (if i == j then length ts else nfts_at i xs)
nfts_at-set i j ts [] {old} e = absurd (ground arith)
nfts_at-set zero zero ts (x ∷ xs) {old} e = refl
nfts_at-set zero (suc j) ts (x ∷ xs) {old} e = ground arith
nfts_at-set (suc i) zero ts (x ∷ xs) {old} e = ground arith
nfts_at-set (suc i) (suc j) ts (x ∷ xs) {old} e = ground (arith, nfts_at-set i j ts xs e)

length-set : (j n : ℕ) (xs : List Balance) → length (set xs j n) ≡ length xs
length-set j n [] = refl
length-set zero n (x ∷ xs) = refl
length-set (suc j) n (x ∷ xs) = ground (arith, length-set j n xs)

pub total_at-add_at :
    (i j n : ℕ) (xs : List Balance) {ys : List Balance}
    → add_at xs j n ≡ ok ys
    → (total_at i ys ≡ total_at i xs + at_index i j n) × (length ys ≡ length xs)
unfolding add_at index add_u128 fit
total_at-add_at i j n xs {ys} e = elim (Option-cases (get_elem? xs j)) [
  | inl missing ↦ absurd (ground arith)
  | inr (old, found) ↦
      ground (arith, total_at-set i j (old + n) xs found, length-set j (old + n) xs)
]

pub total_at-sub_at :
    (i j n : ℕ) (xs : List Balance) {ys : List Balance}
    → sub_at xs j n ≡ ok ys
    → (total_at i ys + at_index i j n ≡ total_at i xs) × (length ys ≡ length xs)
unfolding sub_at index checked_sub
total_at-sub_at i j n xs {ys} e = elim (Option-cases (get_elem? xs j)) [
  | inl missing ↦ absurd (ground arith)
  | inr (old, found) ↦
      ground (arith, total_at-set i j (old - n) xs found, length-set j (old - n) xs)
]

pub nfts_at-push_at :
    (i j : ℕ) (t : TokenId) (xs : List (List TokenId)) {ys : List (List TokenId)}
    → push_at xs j t ≡ ok ys
    → nfts_at i ys ≡ nfts_at i xs + at_index i j 1
unfolding push_at index
nfts_at-push_at i j t xs {ys} e = elim (Option-cases (get_elem? xs j)) [
  | inl missing ↦ absurd (ground arith)
  | inr (old, found) ↦
      ground (arith, nfts_at-set i j (old ++ t ∷ []) xs found, length-append old (t ∷ []))
]

find_token_idx-lt :
    (t : TokenId) (ts : List TokenId) (k : ℕ)
    → token_position t ts ≡ some k
    → suc (length (remove_elem ts k)) ≡ length ts
unfolding token_position
find_token_idx-lt t [] k e = absurd (ground arith)
find_token_idx-lt t (x ∷ xs) zero e = refl
find_token_idx-lt t (x ∷ xs) (suc k) e = ground (arith, find_token_idx-lt t xs k)

-- The contract at index j loses one NFT.
pub nfts_at-remove :
    (i j k : ℕ) (t : TokenId) (xs : List (List TokenId)) {ts : List TokenId}
    → index xs j ≡ ok ts
    → find_token_idx t ts ≡ ok k
    → nfts_at i (set xs j (remove_elem ts k)) + at_index i j 1 ≡ nfts_at i xs
unfolding index find_token_idx
nfts_at-remove i j k t xs {ts} e found = elim (Option-cases (get_elem? xs j)) [
  | inl missing ↦ absurd (ground arith)
  | inr (old, known) ↦
      ground (arith, nfts_at-set i j (remove_elem ts k) xs known, find_token_idx-lt t ts k)
]

pub nfts_at-empty :
    (i : ℕ) (xs : List (List TokenId)) → check_all_empty xs ≡ true → nfts_at i xs ≡ 0
unfolding check_all_empty
nfts_at-empty i [] e = refl
nfts_at-empty zero ([] ∷ xs) e = refl
nfts_at-empty (suc i) ([] ∷ xs) e = nfts_at-empty i xs e
nfts_at-empty i ((t ∷ ts) ∷ xs) e = absurd (ground arith)

pub nfts_at-replicate : (i n : ℕ) → nfts_at i (replicate n []) ≡ 0
nfts_at-replicate i zero = refl
nfts_at-replicate zero (suc n) = refl
nfts_at-replicate (suc i) (suc n) = nfts_at-replicate i n
