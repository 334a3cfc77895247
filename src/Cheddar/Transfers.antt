-- ===== src/Cheddar/Transfers.antt =====
-- What ft_transfer does to the accounts, and when it goes through (cheddar/src/lib.rs, internal.rs).
use cheddar.Prelude.{
  ◌+◌, ◌-◌, ◌≤◌, ◌<◌, ◌≡◌, ◌≢◌, some, ok, arith, Option-cases, inl, inr, Result-cases,
}
use cheddar.Prelude.Words.{u128_limit, add_u128, fit, checked_sub}
use cheddar.Near.{Env, AccountId, Balance}
use cheddar.Near.LookupMap.{get, get-insert, weight-add-le}
use cheddar.Cheddar.{Contract, AccBalance, VestingRecord, compute_amount_locked}
use cheddar.Cheddar.Internal.{internal_transfer, check_vesting, credit, put_account}
use cheddar.Cheddar.Methods.{ft_transfer}
use cheddar.Cheddar.Supply.{IsBalanced, token_of, internal_transfer_inv, check_vesting-accounts}

-- The token balance of a registered account, and that a value is what the map holds.
abbrev pub Holds : Contract → AccountId → AccBalance → Type 0
Holds c a ab = get a c.accounts ≡ some ab

-- The vesting schedule of `a` lets it keep no more than `kept` tokens.
abbrev pub Allows : Env → Contract → AccountId → Balance → Type 0
Allows env c a kept =
    (v : VestingRecord)
    → get a c.vested ≡ some v
    → (l : Balance) × (compute_amount_locked env v ≡ ok l) × (l ≤ kept)

pub record Moved (s r : AccountId) (x : Balance) (c c' : Contract) : Type 0 where
  pub different : s ≢ r
  pub positive : 0 < x
  pub sender_account : AccBalance
  pub receiver_account : AccBalance
  pub sender_before : Holds c s sender_account
  pub receiver_before : Holds c r receiver_account
  pub covered : x ≤ sender_account.token
  pub sender_after : Holds c' s (record sender_account { token = sender_account.token - x })
  pub receiver_after : Holds c' r (record receiver_account { token = receiver_account.token + x })
  pub others : (a : AccountId) → a ≢ s → a ≢ r → get a c'.accounts ≡ get a c.accounts
  pub supply : c'.total_supply ≡ c.total_supply
  pub owner : c'.owner_id ≡ c.owner_id
  pub minters : c'.minters ≡ c.minters

credit_inv :
    (r : AccountId) (x : Balance) (c : Contract) {c' : Contract}
    → credit r x c ≡ ok c'
    → (rb : AccBalance) × (get r c.accounts ≡ some rb)
      × (c' ≡ put_account r (record rb { token = rb.token + x }) c)
unfolding credit add_u128 fit
credit_inv r x c {c'} e = elim (Option-cases (get r c.accounts)) [
  | inl missing ↦ absurd (ground arith)
  | inr (rb, found) ↦ (rb, found, ground arith)
]

internal_transfer-Moved :
    (env : Env) (s r : AccountId) (x : Balance) (c : Contract) {c' : Contract}
    → internal_transfer env s r x c ≡ ok c'
    → Moved s r x c c'
unfolding put_account check_vesting
internal_transfer-Moved env s r x c {c'} e =
    let (ab, c₁, ne, pos, found, enough, checked, credited) = internal_transfer_inv env s r x c e in
    let v = check_vesting-accounts env s (ab.token - x) _ checked in
    let (rb, rfound, final) = credit_inv r x c₁ credited in
    record {
      different = ne;
      positive = pos;
      sender_account = ab;
      receiver_account = rb;
      sender_before = found;
      receiver_before = grind (arith, get-insert);
      covered = enough;
      sender_after = grind (arith, get-insert);
      receiver_after = grind (arith, get-insert);
      others = λ a h k. grind (arith, get-insert);
      supply = ground arith;
      owner = ground arith;
      minters = ground arith;
    }

-- A transfer that returns was confirmed by a deposit of one yocto, and it moves exactly the amount:
-- the caller and the receiver are different registered accounts, the caller had the tokens and
-- loses them, the receiver gains them, and no other account, the supply, the owner or the minters
-- changes.
pub ft_transfer-Moved :
    (env : Env) (r : AccountId) (x : Balance) (c : Contract) {c' : Contract}
    → ft_transfer env r x c ≡ ok c'
    → (env.attached_deposit ≡ 1) × Moved env.predecessor_account_id r x c c'
unfolding ft_transfer
ft_transfer-Moved env r x c {c'} e =
    (ground arith, internal_transfer-Moved env env.predecessor_account_id r x c (ground arith))

-- No transfer takes a sender below what its vesting schedule still locks.
pub ft_transfer-keeps_locked :
    (env : Env) (r : AccountId) (x : Balance) (c : Contract) {c' : Contract} {v : VestingRecord}
    {l : Balance} {ab : AccBalance}
    → ft_transfer env r x c ≡ ok c'
    → get env.predecessor_account_id c.vested ≡ some v
    → compute_amount_locked env v ≡ ok l
    → get env.predecessor_account_id c'.accounts ≡ some ab
    → l ≤ ab.token
unfolding ft_transfer check_vesting put_account
ft_transfer-keeps_locked env r x c {c'} {v} {l} {ab} e sched lock now =
    let s = env.predecessor_account_id in
    let went : internal_transfer env s r x c ≡ ok c' = ground arith in
    let (sb, c₁, ne, pos, found, enough, checked, credited) =
      internal_transfer_inv env s r x c went in
    let m = internal_transfer-Moved env s r x c went in
    ground (arith, m.sender_after, m.sender_before)

-- A transfer goes through whenever it should: the caller confirms it, both accounts are registered
-- and different, the amount is positive and covered, and any schedule of the caller allows what is
-- left. In a balanced state nothing overflows.
pub ft_transfer_total :
    (env : Env) (r : AccountId) (x : Balance) (c : Contract) (ab rb : AccBalance)
    → IsBalanced c
    → env.attached_deposit ≡ 1
    → env.predecessor_account_id ≢ r
    → 0 < x
    → Holds c env.predecessor_account_id ab
    → Holds c r rb
    → x ≤ ab.token
    → Allows env c env.predecessor_account_id (ab.token - x)
    → (c' : Contract) × (ft_transfer env r x c ≡ ok c')
unfolding ft_transfer internal_transfer check_vesting credit put_account add_u128 fit checked_sub
ft_transfer_total env r x c ab rb h one ne pos sender receiver enough allows =
    let s = env.predecessor_account_id in
    elim (Result-cases (ft_transfer env r x c)) [
      | inl went ↦ went
      | inr (m, refused) ↦ absurd (elim (Option-cases (get s c.vested)) [
        | inl free ↦
            ground (arith, room, get-insert r s (record ab { token = ab.token - x }) c.accounts)
        | inr (v, sched) ↦
            let (l, lock, le) = allows v sched in
            ground (arith, room, get-insert r s (record ab { token = ab.token - x }) c.accounts)
      ])
    ]
  where
    room : ab.token + rb.token < u128_limit
    room = ground (arith, weight-add-le token_of env.predecessor_account_id r c.accounts ne)
