-- ===== src/P4Farm/Accounts/Departures.antt =====
-- The totals of the P4 farm across closing, unstaking and the withdrawals (p4-farm-nft/src/lib.rs,
-- vault.rs).
use cheddar.Prelude.{
  ℕ, ◌≡◌, true, some, List, ok, arith, ap, leb, ltb, ◌==◌, set, assert, Ensures, Ensures-bind,
  Ensures-at, Ensures-if, Ensures-intro, Result-cases, inl, inr,
}
use cheddar.Prelude.Words.{checked_sub}
use cheddar.Near.{Env, AccountId, Balance}
use cheddar.Near.LookupMap.{get, get-insert, All-get}
use cheddar.P3Lib.{find_acc_idx, index}
use cheddar.P4Farm.State.{TokenId, ParseAccount, Vault, Contract, Promise}
use cheddar.P4Farm.Identifiers.{min_stake, nft_units_max_transfer_num, find_token_idx}
use cheddar.P4Farm.Rewards.{
  ping_all, recompute_stake, put_vault, get_vault, get_number_of_staked_tokens, is_empty_vault,
}
use cheddar.P4Farm.Transfers.{transfer_staked_nft}
use cheddar.P4Farm.Staking.{
  send_boost_nft, pay_out, unregister, close, assert_is_active, assert_one_yocto,
  withdraw_boost_nft, withdraw_crop, withdraw_farmed_recovered, unstake_one, unstake, remove_elem,
}
use cheddar.P4Farm.Counts.{nfts_at, nfts_at-empty, nfts_at-remove, at_index}
use cheddar.P4Farm.Accounts.{
  IsRated, IsAccounted, Owes, OwesFor, put-Owes, put-IsAccounted, found-OwesFor, kept-IsAccounted,
  remove-IsAccounted, settled-IsAccounted,
}
use cheddar.P4Farm.Accounts.Changes.{
  ping_all_inv, recompute_stake_inv, recompute_stake-IsRated, recomputed-Owes, pinged-OwesFor,
}
use cheddar.P4Farm.Accounts.Fresh.{empty_vault-units}
use cheddar.P4Farm.Accounts.Exits.{
  Returned, transfer_staked_nft-Returned, FirstSame, send_crop-SameTotals,
  transfer_farmed_tokens-SameTotals, min_stake-le-units,
}
use cheddar.P4Farm.Accounts.Closing.{
  get_vault_inv, GaveUp, send_boost_nft-GaveUp, Settled, pay_out-Settled,
}

module _ (parse : ParseAccount) (i : ℕ) where
  abbrev pub FirstAccounted {ℓ} : {B : Type ℓ} → Contract × B → Type 0
  FirstAccounted r = IsAccounted parse i r.0

  abbrev pub TripleAccounted : Contract × List TokenId × List Promise → Type 0
  TripleAccounted r = IsAccounted parse i r.0

  pub pinged-IsRated :
      (env : Env) (a : AccountId) (v : Vault) (c : Contract) {v' : Vault} {c' : Contract}
      → ping_all env v c ≡ ok (v', c')
      → get a c.vaults ≡ some v
      → IsAccounted parse i c
      → IsRated parse c' v'
  pinged-IsRated env a v c {v'} {c'} e found h =
      ground (arith, ping_all_inv env v c e, All-get (IsRated parse c) a c.vaults h.rated found)

  unregister-IsAccounted :
      (a : AccountId) (c : Contract)
      → Owes parse i a 0 0 0 c
      → Ensures (IsAccounted parse i) (unregister a c)
  unfolding unregister
  unregister-IsAccounted a c h =
      Ensures-bind (IsAccounted parse i) (checked_sub c.accounts_registered 1) _
        λ n _. remove-IsAccounted parse i a n c h

  empty-Owes :
      (a : AccountId) (v : Vault) (c : Contract)
      → is_empty_vault v ≡ true
      → IsRated parse c v
      → OwesFor parse i a v c
      → Owes parse i a 0 0 0 c
  unfolding is_empty_vault
  empty-Owes a v c empty rated h = ground (
    arith,
    h.units,
    h.nfts,
    h.cheddar,
    h.rated,
    h.in_range,
    h.one_rate_each,
    h.has_rate,
    empty_vault-units parse v c empty rated h.has_rate,
    nfts_at-empty i v.staked,
  )

  pub close-IsAccounted :
      (env : Env) (c : Contract)
      → IsAccounted parse i c
      → Ensures FirstAccounted (close parse env c)
  unfolding close
  close-IsAccounted env c h =
      let a = env.predecessor_account_id in
      let P = FirstAccounted {B = List Promise} in
      Ensures-bind P (assert_is_active c) _ λ _ _. Ensures-bind P (assert_one_yocto env) _ λ _ _.
        Ensures-bind P (get_vault c a) _ λ v found.
          Ensures-bind P (get_number_of_staked_tokens v) _ λ n _.
            Ensures-bind P (assert (leb n nft_units_max_transfer_num) _) _ λ _ _.
              Ensures-bind P (ping_all env v c) _ λ (v1, c1) pinged.
                let owed =
                  pinged-OwesFor parse i env a v c pinged
                    (found-OwesFor parse i a v c h (get_vault_inv a c found)) in
                let rated = pinged-IsRated env a v c pinged (get_vault_inv a c found) h in
                Ensures-if P (is_empty_vault v1) _ _
                  (λ empty. Ensures-bind P (unregister a c1) _ λ c2 gone.
                    Ensures-at (IsAccounted parse i) _
                      (unregister-IsAccounted a c1 (empty-Owes a v1 c1 empty rated owed)) gone)
                  (λ _. Ensures-bind P (pay_out parse env a v1 c1) _ λ (c2, ps) paid.
                    Ensures-bind P (unregister a c2) _ λ c3 gone.
                      Ensures-at (IsAccounted parse i) _
                        (unregister-IsAccounted a c2 (
                          Ensures-at (Settled parse i a) _
                            (pay_out-Settled parse i env a v1 c1 owed rated) paid))
                        gone)

  -- The vault lost the NFT, and then the total does.
  unstaked-IsAccounted :
      (a : AccountId) (j k : ℕ) (t : TokenId) (ts : List TokenId) (v w : Vault) (c c2 : Contract)
      {r : Contract × List Promise}
      → index v.staked j ≡ ok ts
      → find_token_idx t ts ≡ ok k
      → recompute_stake parse (record v { staked = set v.staked j (remove_elem ts k) }) c
        ≡ ok (w, c2)
      → transfer_staked_nft a j t (put_vault a w c2) ≡ ok r
      → OwesFor parse i a v c
      → IsAccounted parse i r.0
  unfolding put_vault
  unstaked-IsAccounted a j k t ts v w c c2 {r} e found counted sent h =
      let less : Vault = record v { staked = set v.staked j (remove_elem ts k) } in
      let moved = recompute_stake_inv parse less c counted in
      let owed =
        put-Owes parse i a _ (nfts_at i v.staked) v.cheddar_staked w c2
          (recomputed-Owes parse i a 0 (nfts_at i v.staked) v.cheddar_staked less c counted
            (omega arith) (omega arith) (ground (arith, h)))
          (recompute_stake-IsRated parse less c counted) in
      let gone =
        Ensures-at (Returned i (at_index i j 1) (put_vault a w c2)) _
          (transfer_staked_nft-Returned i a j t (put_vault a w c2)) sent in
      let one = nfts_at-remove i j k t v.staked e found in
      settled-IsAccounted parse i a w r.0
        (ground (
          arith,
          owed.units,
          owed.nfts,
          owed.cheddar,
          owed.rated,
          owed.in_range,
          owed.one_rate_each,
          owed.has_rate,
          moved,
          gone,
          ap (get a) gone.1.0,
          one,
        ))
        (ground (arith, gone, get-insert a a w c2.vaults))

  unstake_one-IsAccounted :
      (env : Env) (a : AccountId) (j k : ℕ) (t : TokenId) (ts : List TokenId) (v : Vault)
      (c : Contract)
      → index v.staked j ≡ ok ts
      → find_token_idx t ts ≡ ok k
      → OwesFor parse i a v c
      → Ensures TripleAccounted (unstake_one parse env a j k t v c)
  unfolding unstake_one
  unstake_one-IsAccounted env a j k t ts v c e known h =
      let P = TripleAccounted in
      Ensures-bind P (ping_all env v c) _ λ (v1, c1) pinged.
        Ensures-bind P (index v1.staked j) _ λ now read.
          Ensures-bind P
            (recompute_stake parse (record v1 { staked = set v1.staked j (remove_elem now k) }) c1)
            _
            λ (w, c2) counted.
              Ensures-bind P (transfer_staked_nft a j t (put_vault a w c2)) _ λ (c3, ps) sent.
                let same = ping_all_inv env v c pinged in
                let again : now ≡ ts = ground (arith, same, e, read) in
                unstaked-IsAccounted a j k t now v1 w c1 c2 read (ground (arith, again, known))
                  counted sent (pinged-OwesFor parse i env a v c pinged h)

  pub unstake-IsAccounted :
      (env : Env) (nft : AccountId) (t : TokenId) (c : Contract)
      → IsAccounted parse i c
      → Ensures TripleAccounted (unstake parse env nft t c)
  unfolding unstake
  unstake-IsAccounted env nft t c h =
      let a = env.predecessor_account_id in
      let P = TripleAccounted in
      Ensures-bind P (assert_is_active c) _ λ _ _. Ensures-bind P (assert_one_yocto env) _ λ _ _.
        Ensures-bind P (find_acc_idx nft c.stake_nft_tokens) _ λ j _.
          Ensures-bind P (get_vault c a) _ λ v found. Ensures-bind P (index v.staked j) _ λ ts read.
            Ensures-bind P (find_token_idx t ts) _ λ k known.
              Ensures-bind P (get_number_of_staked_tokens v) _ λ n _.
                Ensures-if P (n == 1) _ _
                  (λ _. Ensures-bind P (close parse env c) _ λ r closed.
                    Ensures-at (FirstAccounted {B = List Promise}) _ (close-IsAccounted env c h)
                      closed)
                  (λ _.
                    unstake_one-IsAccounted env a j k t ts v c read known
                      (found-OwesFor parse i a v c h (get_vault_inv a c found)))

  pub withdraw_crop-IsAccounted :
      (env : Env) (c : Contract)
      → IsAccounted parse i c
      → Ensures FirstAccounted (withdraw_crop env c)
  unfolding withdraw_crop
  withdraw_crop-IsAccounted env c h =
      let a = env.predecessor_account_id in
      let P = FirstAccounted {B = List Promise} in
      Ensures-bind P (assert_is_active c) _ λ _ _. Ensures-bind P (get_vault c a) _ λ v found.
        Ensures-bind P (ping_all env v c) _ λ (v1, c1) pinged. Ensures-intro P _ λ r sent.
          let paid = put_vault a (record v1 { farmed = 0 }) c1 in
          kept-IsAccounted parse i paid r.0
            (Ensures-at (FirstSame paid) _ (send_crop-SameTotals a v1.farmed paid) sent)
            (put-IsAccounted parse i a (record v1 { farmed = 0 }) c1
              (pinged-OwesFor parse i env a v c pinged
                (found-OwesFor parse i a v c h (get_vault_inv a c found)))
              (pinged-IsRated env a v c pinged (get_vault_inv a c found) h))

  pub withdraw_farmed_recovered-IsAccounted :
      (env : Env) (token : AccountId) (c : Contract)
      → IsAccounted parse i c
      → Ensures FirstAccounted (withdraw_farmed_recovered env token c)
  unfolding withdraw_farmed_recovered
  withdraw_farmed_recovered-IsAccounted env token c h =
      let a = env.predecessor_account_id in
      let P = FirstAccounted {B = List Promise} in
      Ensures-bind P (assert_is_active c) _ λ _ _. Ensures-bind P (get_vault c a) _ λ v found.
        Ensures-bind P (find_acc_idx token c.farm_tokens) _ λ j _.
          Ensures-bind P (index v.farmed_recovered j) _ λ x _.
            Ensures-bind P (assert (ltb 0 x) "user {} balance is zero") _ λ _ _.
              Ensures-intro P _ λ r sent.
                kept-IsAccounted parse i c r.0
                  (Ensures-at (FirstSame c) _ (transfer_farmed_tokens-SameTotals a j x c) sent) h

  -- The tokens of a counted vault have units.
  rated-min_stake :
      (v : Vault) (c : Contract)
      → IsRated parse c v
      → (s : Balance) × (min_stake v.staked c.stake_rates ≡ ok s)
  rated-min_stake v c h = elim (Result-cases (min_stake v.staked c.stake_rates)) [
    | inl known ↦ known
    | inr (m, refused) ↦ absurd (ground (arith, h))
  ]

  pub withdraw_boost_nft-IsAccounted :
      (env : Env) (c : Contract)
      → IsAccounted parse i c
      → Ensures FirstAccounted (withdraw_boost_nft parse env c)
  unfolding withdraw_boost_nft
  withdraw_boost_nft-IsAccounted env c h =
      let a = env.predecessor_account_id in
      let P = FirstAccounted {B = List Promise} in
      Ensures-bind P (assert_one_yocto env) _ λ _ _. Ensures-bind P (get_vault c a) _ λ v found.
        Ensures-bind P (send_boost_nft parse env a v c) _ λ (w, c1, ps) sent.
          let rated = All-get (IsRated parse c) a c.vaults h.rated (get_vault_inv a c found) in
          let (s, e) = rated-min_stake v c rated in
          let gave =
            Ensures-at (GaveUp parse i a s 0 (nfts_at i v.staked) v.cheddar_staked v) _
              (send_boost_nft-GaveUp parse i env a s 0 (nfts_at i v.staked) v.cheddar_staked v c e
                (omega arith) (min_stake-le-units parse v c e rated).0
                (ground (arith, found-OwesFor parse i a v c h (get_vault_inv a c found))))
              sent in
          settled-IsAccounted parse i a w c1 (ground (arith, gave)) gave.3
