-- ===== src/P4Farm/Payouts/Returned.antt =====
-- What the P4 farm has paid and has left when NFTs are returned and accounts closed, and across the
-- callbacks (p4-farm-nft/src/lib.rs, vault.rs).
use cheddar.Prelude.{
  ℕ, zero, suc, ◌+◌, List, [], ◌∷◌, arith, leb, ◌==◌, assert, length, not, set, Ensures,
  Ensures-bind, Ensures-at, Ensures-if,
}
use cheddar.Prelude.Words.{checked_sub}
use cheddar.Near.{Env, AccountId}
use cheddar.P3Lib.{index, sub_at, find_acc_idx}
use cheddar.P4Farm.State.{TokenId, ParseAccount, Vault, Contract, Promise}
use cheddar.P4Farm.Identifiers.{
  is_empty, min_stake, extract_contract_token_ids, nft_units_max_transfer_num, find_token_idx,
}
use cheddar.P4Farm.Rewards.{
  ping_all, recompute_stake, put_vault, get_vault, get_number_of_staked_tokens, is_empty_vault,
}
use cheddar.P4Farm.Transfers.{send_crop, transfer_staked_nft, transfer_staked_cheddar}
use cheddar.P4Farm.Staking.{
  assert_is_active, assert_one_yocto, return_tokens, return_staked_from, return_cheddar,
  send_boost_nft, return_boost, withdraw_boost_nft, pay_out, unregister, close, unstake_one,
  unstake, remove_elem,
}
use cheddar.P4Farm.Payouts.{
  ping_all-SamePayouts, recompute_stake-SamePayouts, IsBacked, FirstBacked, send_crop-IsBacked,
}

module _ (parse : ParseAccount) (i limit : ℕ) where
  abbrev pub TripleBacked : Contract × List TokenId × List Promise → Type 0
  TripleBacked r = IsBacked i limit r.0

  abbrev SecondBacked : Vault × Contract × List Promise → Type 0
  SecondBacked r = IsBacked i limit r.1

  transfer_staked_nft-IsBacked :
      (a : AccountId) (j : ℕ) (t : TokenId) (c : Contract)
      → IsBacked i limit c
      → Ensures (FirstBacked i limit) (transfer_staked_nft a j t c)
  unfolding transfer_staked_nft
  transfer_staked_nft-IsBacked a j t c h =
      let P = FirstBacked i limit {B = List Promise} in
      Ensures-bind P (index c.stake_nft_tokens j) _
        λ nft _. Ensures-bind P (sub_at c.total_stake j 1) _ λ total _. h

  return_tokens-IsBacked :
      (a : AccountId) (j : ℕ) (ts : List TokenId) (c : Contract)
      → IsBacked i limit c
      → Ensures (FirstBacked i limit) (return_tokens a j ts c)
  unfolding return_tokens
  return_tokens-IsBacked a j [] c h = h
  return_tokens-IsBacked a j (t ∷ ts) c h =
      let P = FirstBacked i limit {B = List Promise} in
      Ensures-bind P (transfer_staked_nft a j t c) _ λ (c1, ps) sent.
        let one = Ensures-at P _ (transfer_staked_nft-IsBacked a j t c h) sent in
        Ensures-bind P (return_tokens a j ts c1) _
          λ (c2, qs) rest. Ensures-at P _ (return_tokens-IsBacked a j ts c1 one) rest

  return_staked_from-IsBacked :
      (n k : ℕ) (a : AccountId) (staked : List (List TokenId)) (c : Contract)
      → IsBacked i limit c
      → Ensures (FirstBacked i limit) (return_staked_from n k a staked c)
  unfolding return_staked_from
  return_staked_from-IsBacked zero k a staked c h = h
  return_staked_from-IsBacked (suc n) k a staked c h =
      let P = FirstBacked i limit {B = List Promise} in
      Ensures-bind P (index staked k) _ λ ts _.
        Ensures-bind P (return_tokens a k ts c) _ λ (c1, ps) sent.
          let one = Ensures-at P _ (return_tokens-IsBacked a k ts c h) sent in
          Ensures-bind P (return_staked_from n (k + 1) a staked c1) _ λ (c2, qs) rest.
            Ensures-at P _ (return_staked_from-IsBacked n (k + 1) a staked c1 one) rest

  send_boost_nft-IsBacked :
      (env : Env) (a : AccountId) (v : Vault) (c : Contract)
      → IsBacked i limit c
      → Ensures SecondBacked (send_boost_nft parse env a v c)
  unfolding send_boost_nft put_vault
  send_boost_nft-IsBacked env a v c h =
      let P = SecondBacked in
      Ensures-bind P (assert (not (is_empty v.boost_nft)) "Sender has no NFT deposit") _ λ _ _.
        Ensures-bind P (ping_all env v c) _ λ (v1, c1) pinged.
          Ensures-bind P (extract_contract_token_ids parse v1.boost_nft) _ λ (nft, token) _.
            Ensures-bind P (find_acc_idx nft c1.boost_nft_contracts) _ λ j _.
              Ensures-bind P (sub_at c1.total_boost j 1) _ λ total _.
                Ensures-bind P
                  (recompute_stake parse (record v1 { boost_nft = "" })
                    (record c1 { total_boost = total }))
                  _
                  λ _ counted. ground (
                    arith,
                    h,
                    ping_all-SamePayouts env v c pinged,
                    recompute_stake-SamePayouts parse _ _ counted,
                  )

  pub withdraw_boost_nft-IsBacked :
      (env : Env) (c : Contract)
      → IsBacked i limit c
      → Ensures (FirstBacked i limit) (withdraw_boost_nft parse env c)
  unfolding withdraw_boost_nft
  withdraw_boost_nft-IsBacked env c h =
      let a = env.predecessor_account_id in
      let P = FirstBacked i limit {B = List Promise} in
      Ensures-bind P (assert_one_yocto env) _ λ _ _. Ensures-bind P (get_vault c a) _ λ v _.
        Ensures-bind P (send_boost_nft parse env a v c) _
          λ r sent. Ensures-at SecondBacked _ (send_boost_nft-IsBacked env a v c h) sent

  pay_out-IsBacked :
      (env : Env) (a : AccountId) (v : Vault) (c : Contract)
      → IsBacked i limit c
      → Ensures (FirstBacked i limit) (pay_out parse env a v c)
  unfolding pay_out return_boost return_cheddar transfer_staked_cheddar
  pay_out-IsBacked env a v c h =
      let P = FirstBacked i limit {B = List Promise} in
      Ensures-bind P (min_stake v.staked c.stake_rates) _ λ s _.
        Ensures-bind P (checked_sub c.staked_units s) _ λ left _.
          let c0 : Contract = record c { staked_units = left } in
          Ensures-bind P (return_staked_from (length c.total_stake) 0 a v.staked c0) _
            λ (c1, ps) back.
              let one =
                Ensures-at P _
                  (return_staked_from-IsBacked (length c.total_stake) 0 a v.staked c0 h) back in
              Ensures-bind P (send_crop a v.farmed c1) _ λ (c2, qs) sent.
                let two = Ensures-at P _ (send_crop-IsBacked i limit a v.farmed c1 one) sent in
                Ensures-bind P (return_boost parse env a v c2) _ λ (w, c3, rs) boost.
                  let three =
                    Ensures-at SecondBacked _
                      (Ensures-if SecondBacked (is_empty v.boost_nft) _ _ (λ _. two)
                        (λ _. send_boost_nft-IsBacked env a v c2 two))
                      boost in
                  Ensures-bind P (return_cheddar a w c3) _ λ (c4, ss) paid. ground (arith, three)

  unregister-IsBacked :
      (a : AccountId) (c : Contract)
      → IsBacked i limit c
      → Ensures (IsBacked i limit) (unregister a c)
  unfolding unregister
  unregister-IsBacked a c h =
      Ensures-bind (IsBacked i limit) (checked_sub c.accounts_registered 1) _ λ n _. h

  pub close-IsBacked :
      (env : Env) (c : Contract)
      → IsBacked i limit c
      → Ensures (FirstBacked i limit) (close parse env c)
  unfolding close
  close-IsBacked env c h =
      let a = env.predecessor_account_id in
      let P = FirstBacked i limit {B = List Promise} in
      Ensures-bind P (assert_is_active c) _ λ _ _. Ensures-bind P (assert_one_yocto env) _ λ _ _.
        Ensures-bind P (get_vault c a) _ λ v _.
          Ensures-bind P (get_number_of_staked_tokens v) _ λ n _.
            Ensures-bind P (assert (leb n nft_units_max_transfer_num) _) _ λ _ _.
              Ensures-bind P (ping_all env v c) _ λ (v1, c1) pinged.
                let one : IsBacked i limit c1 =
                  ground (arith, h, ping_all-SamePayouts env v c pinged) in
                Ensures-if P (is_empty_vault v1) _ _
                  (λ _.
                    Ensures-bind P (unregister a c1) _ λ c2 gone.
                      Ensures-at (IsBacked i limit) _ (unregister-IsBacked a c1 one) gone)
                  (λ _. Ensures-bind P (pay_out parse env a v1 c1) _ λ (c2, ps) paid.
                    let two = Ensures-at P _ (pay_out-IsBacked env a v1 c1 one) paid in
                    Ensures-bind P (unregister a c2) _ λ c3 gone.
                      Ensures-at (IsBacked i limit) _ (unregister-IsBacked a c2 two) gone)

  pub unstake-IsBacked :
      (env : Env) (nft : AccountId) (t : TokenId) (c : Contract)
      → IsBacked i limit c
      → Ensures TripleBacked (unstake parse env nft t c)
  unfolding unstake unstake_one put_vault
  unstake-IsBacked env nft t c h =
      let a = env.predecessor_account_id in
      let P = TripleBacked in
      Ensures-bind P (assert_is_active c) _ λ _ _. Ensures-bind P (assert_one_yocto env) _ λ _ _.
        Ensures-bind P (find_acc_idx nft c.stake_nft_tokens) _ λ j _.
          Ensures-bind P (get_vault c a) _ λ v _. Ensures-bind P (index v.staked j) _ λ ts _.
            Ensures-bind P (find_token_idx t ts) _ λ k _.
              Ensures-bind P (get_number_of_staked_tokens v) _ λ n _.
                Ensures-if P (n == 1) _ _
                  (λ _. Ensures-bind P (close parse env c) _ λ r closed.
                    Ensures-at (FirstBacked i limit {B = List Promise}) _ (close-IsBacked env c h)
                      closed)
                  (λ _. Ensures-bind P (ping_all env v c) _ λ (v1, c1) pinged.
                    Ensures-bind P (index v1.staked j) _ λ now _.
                      Ensures-bind P
                        (recompute_stake parse
                          (record v1 { staked = set v1.staked j (remove_elem now k) }) c1)
                        _
                        λ (w, c2) counted.
                          Ensures-bind P (transfer_staked_nft a j t (put_vault a w c2)) _
                            λ (c3, ps) sent.
                              Ensures-at (FirstBacked i limit {B = List Promise}) _
                                (transfer_staked_nft-IsBacked a j t (put_vault a w c2) (
                                  ground (
                                    arith,
                                    h,
                                    ping_all-SamePayouts env v c pinged,
                                    recompute_stake-SamePayouts parse _ _ counted,
                                  )))
                                sent)
