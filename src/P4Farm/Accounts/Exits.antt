-- ===== src/P4Farm/Accounts/Exits.antt =====
-- The totals of the P4 farm while NFTs and tokens are sent back, and when an account is closed
-- (p4-farm-nft/src/lib.rs, vault.rs).
use cheddar.Prelude.{
  ℕ, zero, suc, ◌+◌, ◌≤◌, ◌≡◌, true, List, [], ◌∷◌, length, ok, arith, leb, ltb, ◌==◌, ◌&&◌,
  if◌then◌else◌, Ensures, Ensures-bind, Ensures-at, Ensures-if, Ensures-intro, inl, inr,
  Option-cases, get_elem?,
}
use cheddar.Prelude.Words.{add_u128, fit, checked_sub}
use cheddar.Near.{AccountId, Balance}
use cheddar.P3Lib.{index, sub_at, safe_mul}
use cheddar.P4Farm.State.{TokenId, ParseAccount, Vault, Contract, Promise}
use cheddar.P4Farm.Identifiers.{is_empty, min_stake}
use cheddar.P4Farm.Transfers.{
  transfer_staked_nft, transfer_farmed_tokens, withdraw_crop_from, send_crop,
  transfer_staked_cheddar,
}
use cheddar.P4Farm.Staking.{return_tokens, return_staked_from, return_cheddar}
use cheddar.P4Farm.Counts.{nfts_at, total_at, at_index, total_at-sub_at}
use cheddar.P4Farm.Accounts.{SameButNfts, SameTotals, SameSettings, IsRated}

-- The totals of NFTs fall by that number at the index i.
abbrev pub Returned {ℓ} : {B : Type ℓ} → ℕ → ℕ → Contract → Contract × B → Type 0
Returned i n c r = (total_at i r.0.total_stake + n ≡ total_at i c.total_stake) × SameButNfts c r.0

pub transfer_staked_nft-Returned :
    (i : ℕ) (a : AccountId) (j : ℕ) (t : TokenId) (c : Contract)
    → Ensures (Returned i (at_index i j 1) c) (transfer_staked_nft a j t c)
unfolding transfer_staked_nft
transfer_staked_nft-Returned i a j t c =
    Ensures-bind (Returned i (at_index i j 1) c) (index c.stake_nft_tokens j) _ λ nft _.
      Ensures-bind (Returned i (at_index i j 1) c) (sub_at c.total_stake j 1) _
        λ total less. ground (arith, total_at-sub_at i j 1 c.total_stake less)

return_tokens-Returned :
    (i : ℕ) (a : AccountId) (j : ℕ) (ts : List TokenId) (c : Contract)
    → Ensures (Returned i (at_index i j (length ts)) c) (return_tokens a j ts c)
unfolding return_tokens
return_tokens-Returned i a j [] c = ground arith
return_tokens-Returned i a j (t ∷ ts) c =
    let P = Returned {B = List Promise} i (at_index i j (length (t ∷ ts))) c in
    Ensures-bind P (transfer_staked_nft a j t c) _ λ (c1, ps) sent.
      Ensures-bind P (return_tokens a j ts c1) _ λ (c2, qs) rest.
        let one =
          Ensures-at (Returned i (at_index i j 1) c) _ (transfer_staked_nft-Returned i a j t c)
            sent in
        let others =
          Ensures-at (Returned i (at_index i j (length ts)) c1) _
            (return_tokens-Returned i a j ts c1) rest in
        ground (arith, one, others)

-- The NFTs at the index i, if it is one of the n indices from k.
abbrev pub within : ℕ → ℕ → ℕ → List (List TokenId) → ℕ
within i k n staked = if leb k i && ltb i (k + n) then nfts_at i staked else 0

pub return_staked_from-Returned :
    (i n k : ℕ) (a : AccountId) (staked : List (List TokenId)) (c : Contract)
    → Ensures (Returned i (within i k n staked) c) (return_staked_from n k a staked c)
unfolding return_staked_from index
return_staked_from-Returned i zero k a staked c = ground arith
return_staked_from-Returned i (suc n) k a staked c =
    let P = Returned {B = List Promise} i (within i k (suc n) staked) c in
    Ensures-bind P (index staked k) _ λ ts found.
      Ensures-bind P (return_tokens a k ts c) _ λ (c1, ps) sent.
        Ensures-bind P (return_staked_from n (k + 1) a staked c1) _ λ (c2, qs) rest.
          let here =
            Ensures-at (Returned i (at_index i k (length ts)) c) _
              (return_tokens-Returned i a k ts c) sent in
          let others =
            Ensures-at (Returned i (within i (k + 1) n staked) c1) _
              (return_staked_from-Returned i n (k + 1) a staked c1) rest in
          elim (Option-cases (get_elem? staked k)) [
            | inl missing ↦ absurd (ground arith)
            | inr (old, known) ↦ ground (arith, here, others)
          ]

abbrev pub FirstSame {ℓ} : {B : Type ℓ} → Contract → Contract × B → Type 0
FirstSame c r = SameTotals c r.0

pub transfer_farmed_tokens-SameTotals :
    (a : AccountId) (i : ℕ) (x : Balance) (c : Contract)
    → Ensures (FirstSame c) (transfer_farmed_tokens a i x c)
unfolding transfer_farmed_tokens
transfer_farmed_tokens-SameTotals a i x c = Ensures-intro (FirstSame c) _ λ r e. ground arith

withdraw_crop_from-SameTotals :
    (n i : ℕ) (a : AccountId) (x : Balance) (c : Contract)
    → Ensures (FirstSame c) (withdraw_crop_from n i a x c)
unfolding withdraw_crop_from
withdraw_crop_from-SameTotals zero i a x c = ground arith
withdraw_crop_from-SameTotals (suc n) i a x c =
    let P = FirstSame {B = List Promise} c in
    Ensures-bind P (index c.farm_token_rates i) _ λ rate _.
      Ensures-bind P (safe_mul x rate) _ λ amount _.
        Ensures-bind P (transfer_farmed_tokens a i amount c) _ λ (c1, ps) sent.
          Ensures-bind P (withdraw_crop_from n (i + 1) a x c1) _ λ (c2, qs) rest.
            let one =
              Ensures-at (FirstSame c) _ (transfer_farmed_tokens-SameTotals a i amount c) sent in
            let others =
              Ensures-at (FirstSame c1) _ (withdraw_crop_from-SameTotals n (i + 1) a x c1) rest in
            ground (arith, one, others)

pub send_crop-SameTotals :
    (a : AccountId) (x : Balance) (c : Contract) → Ensures (FirstSame c) (send_crop a x c)
unfolding send_crop
send_crop-SameTotals a x c =
    Ensures-if (FirstSame c) (x == 0) _ _ (λ _. ground arith)
      (λ _. withdraw_crop_from-SameTotals _ 0 a x c)

-- The Cheddar of the vault is taken off the total.
abbrev pub CheddarSent {ℓ} : {B : Type ℓ} → Vault → Contract → Contract × B → Type 0
CheddarSent v c r =
    (r.0.total_cheddar_stake + v.cheddar_staked ≡ c.total_cheddar_stake)
    × (r.0.vaults ≡ c.vaults)
    × (r.0.staked_units ≡ c.staked_units)
    × (r.0.total_stake ≡ c.total_stake)
    × SameSettings c r.0

pub return_cheddar-CheddarSent :
    (a : AccountId) (v : Vault) (c : Contract) → Ensures (CheddarSent v c) (return_cheddar a v c)
unfolding return_cheddar transfer_staked_cheddar checked_sub
return_cheddar-CheddarSent a v c = Ensures-intro (CheddarSent v c) _ λ r e. ground arith

-- The tokens alone give at most the units of the vault, and all of them without a boost NFT.
pub min_stake-le-units :
    (parse : ParseAccount) (v : Vault) (c : Contract) {s : Balance}
    → min_stake v.staked c.stake_rates ≡ ok s
    → IsRated parse c v
    → (s ≤ v.min_stake) × (is_empty v.boost_nft ≡ true → v.min_stake ≡ s)
unfolding add_u128 fit
min_stake-le-units parse v c {s} e h = (ground (arith, h, e), λ none. ground (arith, h, e, none))
