-- ===== src/P4Farm/Emission/Sends.antt =====
-- What the calls of the P4 farm (p4-farm-nft/src/lib.rs, storage_management.rs) send as crop: the units that
-- they pay, once, in every farm token.
use cheddar.Prelude.{
  ℕ, zero, suc, ◌+◌, ◌≡◌, ◌≤◌, refl, Bool, false, ◌&&◌, List, [], ◌∷◌, ◌++◌, none, some, Option, ok,
  arith, Ensures, Ensures-bind, Ensures-at, Ensures-if, Ensures-intro, length, get_elem?, ◌==◌, ltb,
  leb, if◌then◌else◌, assert, get_or,
}
use cheddar.Prelude.Words.{checked_sub}
use cheddar.Near.{Env, AccountId, Balance}
use cheddar.Near.LookupMap.{get}
use cheddar.P3Lib.{index, find_acc_idx}
use cheddar.P4Farm.State.{ParseAccount, TokenId, Vault, Contract, Promise}
use cheddar.P4Farm.Identifiers.{is_empty, min_stake, nft_units_max_transfer_num, find_token_idx}
use cheddar.P4Farm.Rewards.{
  ping_all, put_vault, get_vault, is_empty_vault, get_number_of_staked_tokens,
}
use cheddar.P4Farm.Transfers.{transfer_staked_nft, transfer_staked_cheddar, send_crop}
use cheddar.P4Farm.Staking.{
  return_staked_from, return_boost, send_boost_nft, return_cheddar, unregister, pay_out, close,
  unstake, unstake_one, withdraw_crop, withdraw_boost_nft, assert_is_active, assert_one_yocto,
}
use cheddar.P4Farm.Methods.{storage_unregister, storage_deposit, send_back}
use cheddar.P4Farm.Accounts.Closing.{get_vault_inv}
use cheddar.P4Farm.Reports.{ping_all-keeps_tokens}
use cheddar.P4Farm.Emission.Exits.{crop_of, crop_after, last_of}
use cheddar.P4Farm.Emission.Crops.{
  crop_sent, worth_at, crop_sent-append, SendsCrop, return_staked_from-SendsCrop,
  withdraw_crop_from-SendsCrop,
}

-- What units are worth in a farm token of the farm.
abbrev pub worth_in : ℕ → Contract → Balance → Balance
worth_in i c x = worth_at i c.farm_tokens c.farm_token_rates x

beyond : (i : ℕ) (xs : List ℕ) → length xs ≤ i → get_elem? xs i ≡ none
beyond i [] h = refl
beyond zero (x ∷ xs) h = absurd (omega arith)
beyond (suc i) (x ∷ xs) h = beyond i xs (omega arith)

pub worth_at-zero :
    (i : ℕ) (tokens : List AccountId) (rates : List ℕ) → worth_at i tokens rates 0 ≡ 0
unfolding worth_at
worth_at-zero i tokens rates = ground arith

worth_at_beyond :
    (i : ℕ) (tokens : List AccountId) (rates : List ℕ) (x : Balance)
    → length tokens ≤ i
    → worth_at i tokens rates x ≡ 0
unfolding worth_at
worth_at_beyond i tokens rates x h = rw (beyond i tokens h) refl

module _ (i : ℕ) where
  send_crop-SendsCrop :
      (a : AccountId) (x : Balance) (c : Contract)
      → Ensures (SendsCrop i (worth_in i c x) c) (send_crop a x c)
  unfolding send_crop crop_sent
  send_crop-SendsCrop a x c =
      let P = SendsCrop i (worth_in i c x) c in
      Ensures-if P (x == 0) _ _
        (λ none. ground (arith, none, worth_at-zero i c.farm_tokens c.farm_token_rates))
        (λ some. Ensures-intro P _ λ t e. ground (
          arith,
          worth_at_beyond i c.farm_tokens c.farm_token_rates x,
          Ensures-at
              (SendsCrop i
                (if leb 0 i && ltb i (0 + length c.farm_tokens) then worth_in i c x else 0) c)
              _ (withdraw_crop_from-SendsCrop i (length c.farm_tokens) 0 a x c) e,
        ))

  abbrev SendsNoCrop : Vault × Contract × List Promise → Type 0
  SendsNoCrop t = crop_sent i t.2 ≡ 0

  send_boost_nft_none :
      (parse : ParseAccount) (env : Env) (a : AccountId) (v : Vault) (c : Contract)
      → Ensures SendsNoCrop (send_boost_nft parse env a v c)
  unfolding send_boost_nft crop_sent
  send_boost_nft_none parse env a v c = Ensures-intro SendsNoCrop _ λ t e. ground arith

  return_boost_none :
      (parse : ParseAccount) (env : Env) (a : AccountId) (v : Vault) (c : Contract)
      → Ensures SendsNoCrop (return_boost parse env a v c)
  unfolding return_boost crop_sent
  return_boost_none parse env a v c =
      Ensures-if SendsNoCrop (is_empty v.boost_nft) _ _ (λ _. refl)
        (λ _. send_boost_nft_none parse env a v c)

  return_cheddar_none :
      (a : AccountId) (v : Vault) (c : Contract)
      → Ensures (λ (t : Contract × List Promise). crop_sent i t.1 ≡ 0) (return_cheddar a v c)
  unfolding return_cheddar transfer_staked_cheddar crop_sent
  return_cheddar_none a v c =
      Ensures-intro (λ (t : Contract × List Promise). crop_sent i t.1 ≡ 0) _ λ t e. ground arith

  abbrev pub Sends : Balance → Contract × List Promise → Type 0
  Sends y t = crop_sent i t.1 ≡ y

  pay_out-Sends :
      (parse : ParseAccount) (env : Env) (a : AccountId) (v : Vault) (c : Contract)
      → Ensures (Sends (worth_in i c v.farmed)) (pay_out parse env a v c)
  unfolding pay_out
  pay_out-Sends parse env a v c =
      let P = Sends (worth_in i c v.farmed) in
      Ensures-bind P (min_stake v.staked c.stake_rates) _ λ units _.
        Ensures-bind P (checked_sub c.staked_units units) _ λ left _.
          let start = record c { staked_units = left } in
          Ensures-bind P (return_staked_from (length c.total_stake) 0 a v.staked start) _
            λ (c1, ps) sent. Ensures-bind P (send_crop a v.farmed c1) _ λ (c2, qs) cropped.
              Ensures-bind P (return_boost parse env a v c2) _ λ (w, c3, rs) boosted.
                Ensures-bind P (return_cheddar a w c3) _ λ (c4, ss) final. ground (
                  arith,
                  crop_sent-append i ps (qs ++ (rs ++ ss)),
                  crop_sent-append i qs (rs ++ ss),
                  crop_sent-append i rs ss,
                  Ensures-at (SendsCrop i 0 start) _
                      (return_staked_from-SendsCrop i (length c.total_stake) 0 a v.staked start)
                      sent,
                  Ensures-at (SendsCrop i (worth_in i c1 v.farmed) c1) _
                      (send_crop-SendsCrop a v.farmed c1) cropped,
                  Ensures-at SendsNoCrop _ (return_boost_none parse env a v c2) boosted,
                  Ensures-at (λ (t : Contract × List Promise). crop_sent i t.1 ≡ 0) _
                      (return_cheddar_none a w c3) final,
                )

  module _ (env : Env) (c : Contract) where
    crop_found :
        (v v1 : Vault) (c1 : Contract)
        → get env.predecessor_account_id c.vaults ≡ some v
        → ping_all env v c ≡ ok (v1, c1)
        → worth_in i c1 v1.farmed ≡ worth_in i c (crop_of env c)
    unfolding crop_of crop_after
    crop_found v v1 c1 found pinged =
        let kept = ping_all-keeps_tokens env v c pinged in
        let paid : crop_of env c ≡ v1.farmed = ground (arith, found, pinged) in
        ground (arith, kept, paid)

    pub withdraw_crop-Sends : Ensures (Sends (worth_in i c (crop_of env c))) (withdraw_crop env c)
    unfolding withdraw_crop put_vault
    withdraw_crop-Sends =
        let a = env.predecessor_account_id in
        let P = Sends (worth_in i c (crop_of env c)) in
        Ensures-bind P (assert_is_active c) _ λ _ _. Ensures-bind P (get_vault c a) _ λ v read.
          Ensures-bind P (ping_all env v c) _ λ (v1, c1) pinged.
            let stored = put_vault a (record v1 { farmed = 0 }) c1 in
            Ensures-intro P _ λ t e. ground (
              arith,
              crop_found v v1 c1 (get_vault_inv a c read) pinged,
              Ensures-at (SendsCrop i (worth_in i stored v1.farmed) stored) _
                  (send_crop-SendsCrop a v1.farmed stored) e,
            )

    pub close-Sends :
        (parse : ParseAccount) → Ensures (Sends (worth_in i c (crop_of env c))) (close parse env c)
    unfolding close is_empty_vault crop_sent
    close-Sends parse =
        let a = env.predecessor_account_id in
        let P = Sends (worth_in i c (crop_of env c)) in
        Ensures-bind P (assert_is_active c) _ λ _ _. Ensures-bind P (assert_one_yocto env) _ λ _ _.
          Ensures-bind P (get_vault c a) _ λ v read.
            Ensures-bind P (get_number_of_staked_tokens v) _ λ n _.
              Ensures-bind P
                (assert (leb n nft_units_max_transfer_num)
                  "Because of gas limit for single transaction action is not allowed.")
                _
                λ _ _. Ensures-bind P (ping_all env v c) _ λ (v1, c1) pinged.
                  let paid = crop_found v v1 c1 (get_vault_inv a c read) pinged in
                  Ensures-if P (is_empty_vault v1) _ _
                    (λ empty. Ensures-bind P (unregister a c1) _ λ c2 _.
                      ground
                        (arith, empty, paid, worth_at-zero i c1.farm_tokens c1.farm_token_rates))
                    (λ _. Ensures-bind P (pay_out parse env a v1 c1) _ λ (c2, ps) sent.
                      Ensures-bind P (unregister a c2) _ λ c3 _. ground (
                        arith,
                        paid,
                        Ensures-at (Sends (worth_in i c1 v1.farmed)) _
                            (pay_out-Sends parse env a v1 c1) sent,
                      ))

    pub withdraw_boost_nft_none :
        (parse : ParseAccount) → Ensures (Sends 0) (withdraw_boost_nft parse env c)
    unfolding withdraw_boost_nft
    withdraw_boost_nft_none parse =
        let a = env.predecessor_account_id in
        Ensures-bind (Sends 0) (assert_one_yocto env) _ λ _ _.
          Ensures-bind (Sends 0) (get_vault c a) _ λ v _.
            Ensures-bind (Sends 0) (send_boost_nft parse env a v c) _
              λ (w, d, ps) sent. Ensures-at SendsNoCrop _ (send_boost_nft_none parse env a v c) sent

    pub storage_deposit_none :
        (who : Option AccountId) → Ensures (Sends 0) (storage_deposit env who c)
    unfolding storage_deposit send_back crop_sent
    storage_deposit_none who = Ensures-intro (Sends 0) _ λ t e. ground arith

    pub storage_unregister-Sends :
        (parse : ParseAccount) (force : Option Bool)
        → Ensures
            (λ (t : Contract × Bool × List Promise).
              crop_sent i t.2 ≡ worth_in i c (if get_or force false then crop_of env c else 0))
            (storage_unregister parse env force c)
    unfolding storage_unregister crop_sent
    storage_unregister-Sends parse force =
        let P = λ (t : Contract × Bool × List Promise).
          crop_sent i t.2 ≡ worth_in i c (if get_or force false then crop_of env c else 0) in
        Ensures-bind P (assert_one_yocto env) _ λ _ _.
          Ensures-if P (get_or force false) _ _
            (λ forced. Ensures-bind P (close parse env c) _ λ (d, ps) closed. ground (
              arith,
              forced,
              Ensures-at (Sends (worth_in i c (crop_of env c))) _ (close-Sends parse) closed,
            ))
            (λ unforced. ground (arith, unforced, worth_at-zero i c.farm_tokens c.farm_token_rates))

    unstake_one_none :
        (parse : ParseAccount) (a : AccountId) (j k : ℕ) (t : TokenId) (v : Vault)
        → Ensures
            (λ (t : Contract × List TokenId × List Promise). crop_sent i t.2 ≡ 0)
            (unstake_one parse env a j k t v c)
    unfolding unstake_one transfer_staked_nft crop_sent
    unstake_one_none parse a j k t v =
        Ensures-intro (λ (t : Contract × List TokenId × List Promise). crop_sent i t.2 ≡ 0) _
          λ d e. ground arith

    pub unstake-Sends :
        (parse : ParseAccount) (nft : AccountId) (t : TokenId)
        → Ensures
            (λ (t : Contract × List TokenId × List Promise).
              crop_sent i t.2 ≡ worth_in i c (if last_of env c then crop_of env c else 0))
            (unstake parse env nft t c)
    unfolding unstake last_of
    unstake-Sends parse nft t =
        let a = env.predecessor_account_id in
        let P = λ (t : Contract × List TokenId × List Promise).
          crop_sent i t.2 ≡ worth_in i c (if last_of env c then crop_of env c else 0) in
        Ensures-bind P (assert_is_active c) _ λ _ _. Ensures-bind P (assert_one_yocto env) _ λ _ _.
          Ensures-bind P (find_acc_idx nft c.stake_nft_tokens) _ λ j _.
            Ensures-bind P (get_vault c a) _ λ v read. Ensures-bind P (index v.staked j) _ λ ts _.
              Ensures-bind P (find_token_idx t ts) _ λ k _.
                Ensures-bind P (get_number_of_staked_tokens v) _ λ n many.
                  let found = get_vault_inv a c read in
                  Ensures-if P (n == 1) _ _
                    (λ one. Ensures-bind P (close parse env c) _ λ (d, ps) closed. ground (
                      arith,
                      found,
                      many,
                      one,
                      Ensures-at (Sends (worth_in i c (crop_of env c))) _ (close-Sends parse)
                          closed,
                    ))
                    (λ more. Ensures-intro P _ λ d done. ground (
                      arith,
                      found,
                      many,
                      more,
                      worth_at-zero i c.farm_tokens c.farm_token_rates,
                      Ensures-at
                          (λ (t : Contract × List TokenId × List Promise). crop_sent i t.2 ≡ 0) _
                          (unstake_one_none parse a j k t v) done,
                    ))
