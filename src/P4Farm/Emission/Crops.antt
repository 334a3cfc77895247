-- ===== src/P4Farm/Emission/Crops.antt =====
-- The tokens that the promises of the P4 farm (p4-farm-nft/src/lib.rs) send as crop, against the units that
-- are paid.
use cheddar.Prelude.{
  ℕ, zero, suc, ◌+◌, ◌≡◌, ◌&&◌, List, [], ◌∷◌, ◌++◌, none, some, Option, ok, arith, Ensures,
  Ensures-bind, Ensures-at, Ensures-intro, Option-cases, inl, inr, get_elem?, ◌==◌, ltb, leb,
  if◌then◌else◌,
}
use cheddar.Near.{AccountId, Balance}
use cheddar.P3Lib.{near, index, safe_mul}
use cheddar.P3Farm.Emission.Crops.{worth, safe_mul-worth}
use cheddar.P4Farm.State.{
  TokenId, Contract, Promise, transfer, ft_transfer, nft_transfer, Callback, farmed_sent,
  staked_sent, cheddar_sent, boost_sent,
}
use cheddar.P4Farm.Transfers.{transfer_staked_nft, transfer_farmed_tokens, withdraw_crop_from}
use cheddar.P4Farm.Staking.{return_tokens, return_staked_from}

abbrev sent_by_callback : ℕ → Balance → Callback → Balance
sent_by_callback i x (farmed_sent _ j _) = if i == j then x else 0
sent_by_callback i x (staked_sent _ _ _) = 0
sent_by_callback i x (cheddar_sent _ _) = 0
sent_by_callback i x (boost_sent _ _ _) = 0

-- What a promise sends of the farm token at an index, by its callback. NEAR is sent without one.
abbrev sent_by : ℕ → Promise → Balance
sent_by i (transfer _ _) = 0
sent_by i (ft_transfer _ _ x k) = sent_by_callback i x k
sent_by i (nft_transfer _ _ _ _) = 0

unfoldable pub crop_sent : ℕ → List Promise → Balance
crop_sent i [] = 0
crop_sent i (p ∷ ps) = sent_by i p + crop_sent i ps

abbrev rated_worth : Balance → Option ℕ → Balance
rated_worth x none = 0
rated_worth x (some rate) = worth x rate

abbrev token_worth : Balance → Option ℕ → Option AccountId → Balance
token_worth x rate none = 0
token_worth x rate (some token) = if token == near then 0 else rated_worth x rate

-- What the units are worth in the farm token at an index, unless that is NEAR.
unfoldable pub worth_at : ℕ → List AccountId → List ℕ → Balance → Balance
worth_at i tokens rates x = token_worth x (get_elem? rates i) (get_elem? tokens i)

pub crop_sent-append :
    (i : ℕ) (ps qs : List Promise) → crop_sent i (ps ++ qs) ≡ crop_sent i ps + crop_sent i qs
unfolding crop_sent
crop_sent-append i [] qs = omega arith
crop_sent-append i (p ∷ ps) qs = omega (arith, crop_sent-append i ps qs)

-- The promises send that much of the farm token at the index, and the farm tokens and rates stay.
abbrev pub SendsCrop : ℕ → Balance → Contract → Contract × List Promise → Type 0
SendsCrop i y c t =
    (crop_sent i t.1 ≡ y)
    × (t.0.farm_tokens ≡ c.farm_tokens)
    × (t.0.farm_token_rates ≡ c.farm_token_rates)

module _ (i : ℕ) where
  return_tokens-SendsCrop :
      (a : AccountId) (k : ℕ) (ts : List TokenId) (c : Contract)
      → Ensures (SendsCrop i 0 c) (return_tokens a k ts c)
  unfolding return_tokens transfer_staked_nft crop_sent
  return_tokens-SendsCrop a k [] c = ground arith
  return_tokens-SendsCrop a k (t ∷ ts) c =
      Ensures-bind (SendsCrop i 0 c) (transfer_staked_nft a k t c) _ λ (c1, ps) sent.
        Ensures-bind (SendsCrop i 0 c) (return_tokens a k ts c1) _ λ (c2, qs) rest.
          ground
            (arith, sent, Ensures-at (SendsCrop i 0 c1) _ (return_tokens-SendsCrop a k ts c1) rest)

  pub return_staked_from-SendsCrop :
      (n k : ℕ) (a : AccountId) (staked : List (List TokenId)) (c : Contract)
      → Ensures (SendsCrop i 0 c) (return_staked_from n k a staked c)
  unfolding return_staked_from crop_sent
  return_staked_from-SendsCrop zero k a staked c = ground arith
  return_staked_from-SendsCrop (suc n) k a staked c =
      Ensures-bind (SendsCrop i 0 c) (index staked k) _ λ ts _.
        Ensures-bind (SendsCrop i 0 c) (return_tokens a k ts c) _ λ (c1, ps) sent.
          Ensures-bind (SendsCrop i 0 c) (return_staked_from n (k + 1) a staked c1) _
            λ (c2, qs) rest. ground (
              arith,
              crop_sent-append i ps qs,
              Ensures-at (SendsCrop i 0 c) _ (return_tokens-SendsCrop a k ts c) sent,
              Ensures-at (SendsCrop i 0 c1) _ (return_staked_from-SendsCrop n (k + 1) a staked c1)
                  rest,
            )

  transfer_farmed_tokens-SendsCrop :
      (a : AccountId) (k : ℕ) (x rate : Balance) (c : Contract)
      → index c.farm_token_rates k ≡ ok rate
      → Ensures
          (SendsCrop i (if i == k then worth_at k c.farm_tokens c.farm_token_rates x else 0) c)
          (transfer_farmed_tokens a k (worth x rate) c)
  unfolding transfer_farmed_tokens crop_sent worth_at index
  transfer_farmed_tokens-SendsCrop a k x rate c at_k =
      Ensures-intro
        (SendsCrop i (if i == k then worth_at k c.farm_tokens c.farm_token_rates x else 0) c) _
        λ t e. elim (Option-cases (get_elem? c.farm_tokens k)) [
          | inl missing ↦ absurd (ground (arith, missing))
          | inr (token, there) ↦ ground (arith, at_k, there)
        ]

  pub withdraw_crop_from-SendsCrop :
      (n k : ℕ) (a : AccountId) (x : Balance) (c : Contract)
      → Ensures
          (SendsCrop i
            (if leb k i && ltb i (k + n) then worth_at i c.farm_tokens c.farm_token_rates x else 0)
            c)
          (withdraw_crop_from n k a x c)
  unfolding withdraw_crop_from crop_sent
  withdraw_crop_from-SendsCrop zero k a x c = ground arith
  withdraw_crop_from-SendsCrop (suc n) k a x c =
      let P =
        SendsCrop i
          (if leb k i && ltb i (k + suc n)
            then worth_at i c.farm_tokens c.farm_token_rates x
            else 0)
          c in
      Ensures-bind P (index c.farm_token_rates k) _ λ rate read.
        Ensures-bind P (safe_mul x rate) _ λ amount is_worth.
          Ensures-bind P (transfer_farmed_tokens a k amount c) _ λ (c1, ps) sent.
            Ensures-bind P (withdraw_crop_from n (k + 1) a x c1) _ λ (c2, qs) rest.
              let is_amount = safe_mul-worth x rate is_worth in
              let one =
                Ensures-at
                  (SendsCrop i (if i == k then worth_at k c.farm_tokens c.farm_token_rates x else 0)
                    c)
                  _ (transfer_farmed_tokens-SendsCrop a k x rate c read)
                  (let went : transfer_farmed_tokens a k (worth x rate) c ≡ ok (c1, ps) =
                      ground (arith, sent, is_amount) in
                    went) in
              let others =
                Ensures-at
                  (SendsCrop i
                    (if leb (k + 1) i && ltb i (k + 1 + n)
                      then worth_at i c1.farm_tokens c1.farm_token_rates x
                      else 0)
                    c1)
                  _ (withdraw_crop_from-SendsCrop n (k + 1) a x c1) rest in
              ground (arith, one, others, crop_sent-append i ps qs)
